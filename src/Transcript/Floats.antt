-- ===== src/Transcript/Floats.antt =====
-- Python's floats as src/workers/transcript_batch.py uses them, without NaN and the infinities: the
-- order is total and an addition, which rounds, keeps it.
use zenith_voip.Prelude.{◌≡◌, Bool, true, false, if◌then◌else◌, Bool-cases, inl, inr}

pub record Floats : Type 1 where
  pub Float : Type 0
  pub zero : Float
  pub one : Float
  pub less : Float → Float → Bool
  pub add : Float → Float → Float
  pub sub : Float → Float → Float
  pub less_irrefl : (a : Float) → less a a ≡ false
  pub less_asym : (a b : Float) → less a b ≡ true → less b a ≡ false
  -- `a <= b` and `b <= c` give `a <= c`
  pub trans : (a b c : Float) → less b a ≡ false → less c b ≡ false → less c a ≡ false
  pub add_mono : (a b c : Float) → less b a ≡ false → less (add b c) (add a c) ≡ false
  pub zero_le_one : less one zero ≡ false

module _ (F : Floats) where
  open F use {Float, zero, one, less, add, less_irrefl, less_asym}

  -- `a <= b`
  abbrev pub Le : Float → Float → Type 0
  Le a b = less b a ≡ false

  -- `max(a, b)` and `min(a, b)`: the first argument on a tie
  abbrev pub max_of : Float → Float → Float
  max_of a b = if less a b then b else a

  abbrev pub min_of : Float → Float → Float
  min_of a b = if less b a then b else a

  pub max_of-left : (a b : Float) → Le a (max_of a b)
  max_of-left a b = elim (Bool-cases (less a b)) [
    | inl h ↦ rw h (less_asym a b h)
    | inr h ↦ rw h (less_irrefl a)
  ]

  pub max_of-right : (a b : Float) → Le b (max_of a b)
  max_of-right a b = elim (Bool-cases (less a b)) [ inl h ↦ rw h (less_irrefl b) | inr h ↦ rw h h ]

  pub min_of-left : (a b : Float) → Le (min_of a b) a
  min_of-left a b = elim (Bool-cases (less b a)) [
    | inl h ↦ rw h (less_asym b a h)
    | inr h ↦ rw h (less_irrefl a)
  ]

  pub min_of-glb : (a b c : Float) → Le c a → Le c b → Le c (min_of a b)
  min_of-glb a b c h k = elim (Bool-cases (less b a)) [ inl e ↦ rw e k | inr e ↦ rw e h ]
