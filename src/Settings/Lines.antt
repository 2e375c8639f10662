-- ===== src/Settings/Lines.antt =====
-- Key and value lines of daemon/src/settings_store.cpp, written and read back.
use audio_bat.Base.{
  ℕ, zero, suc, ◌+◌, ◌/◌, ◌%◌, ◌<◌, ◌≡◌, refl, sym, ap, Bool, true, false, List, [], ◌∷◌, ◌++◌,
  some, arith, ltb, ◌==◌, if◌then◌else◌, Bool-cases, inl, inr, ◌⊎◌, All, append_assoc,
}
use audio_bat.Settings.{Field, decimal, to_string, render, lines, split_line, fields_in, join}

-- The character does not occur.
abbrev pub lacks : ℕ → List ℕ → Bool
lacks c [] = true
lacks c (x ∷ xs) = if x == c then false else lacks c xs

pub lacks-append :
    (c : ℕ) (xs ys : List ℕ) → lacks c xs ≡ true → lacks c ys ≡ true → lacks c (xs ++ ys) ≡ true
lacks-append c [] ys h k = k
lacks-append c (x ∷ xs) ys h k = elim (Bool-cases (x == c)) [
  | inl e ↦ absurd (cc (rw e at h))
  | inr e ↦ rw e (lacks-append c xs ys (rw e at h) k)
]

-- The character is no digit.
abbrev pub IsNoDigit : ℕ → Type 0
IsNoDigit c = (c < 48) ⊎ (57 < c)

lacks-digit : (c d : ℕ) → d < 10 → IsNoDigit c → lacks c ((48 + d) ∷ []) ≡ true
lacks-digit c d h (inl k) = ground arith
lacks-digit c d h (inr k) = ground arith

lacks-decimal : (c fuel n : ℕ) → IsNoDigit c → lacks c (decimal fuel n) ≡ true
unfolding decimal
lacks-decimal c zero n h = lacks-digit c (n % 10) (omega arith) h
lacks-decimal c (suc fuel) n h = elim (Bool-cases (ltb n 10)) [
  | inl e ↦ rw e (lacks-digit c n (ground arith) h)
  | inr e ↦ rw e (
      lacks-append c (decimal fuel (n / 10)) ((48 + n % 10) ∷ []) (lacks-decimal c fuel (n / 10) h)
        (lacks-digit c (n % 10) (omega arith) h))
]

pub lacks-to_string : (c n : ℕ) → IsNoDigit c → lacks c (to_string n) ≡ true
unfolding to_string
lacks-to_string c n h = lacks-decimal c n n h

-- A key and a value that one line can hold.
pub record IsField (f : Field) : Type 0 where
  pub key_line : lacks 10 f.0 ≡ true
  pub key_name : lacks 61 f.0 ≡ true
  pub value_line : lacks 10 f.1 ≡ true

lines-append :
    (line rest : List ℕ) → lacks 10 line ≡ true → lines (line ++ (10 ∷ rest)) ≡ line ∷ lines rest
unfolding lines
lines-append [] rest h = refl
lines-append (c ∷ cs) rest h = elim (Bool-cases (c == 10)) [
  | inl e ↦ absurd (cc (rw e at h))
  | inr e ↦ rw (e, lines-append cs rest (rw e at h)) refl
]

split_line-append :
    (key value : List ℕ)
    → lacks 61 key ≡ true
    → split_line (key ++ (61 ∷ value)) ≡ some (key, value)
unfolding split_line
split_line-append [] value h = refl
split_line-append (c ∷ cs) value h = elim (Bool-cases (c == 61)) [
  | inl e ↦ absurd (cc (rw e at h))
  | inr e ↦ rw (e, split_line-append cs value (rw e at h)) refl
]

-- Fields written as lines are read back, in order.
pub fields_in-render : (fs : List Field) → All IsField fs → fields_in (lines (render fs)) ≡ fs
unfolding fields_in render
fields_in-render [] v = unfold lines in refl
fields_in-render ((key, value) ∷ fs) v =
    let whole : key ++ (61 ∷ value ++ (10 ∷ render fs))
        ≡ (key ++ (61 ∷ value)) ++ (10 ∷ render fs) =
      sym (append_assoc key (61 ∷ value) (10 ∷ render fs)) in
    rw
      (
        whole,
        lines-append (key ++ (61 ∷ value)) (render fs)
            (lacks-append 10 key (61 ∷ value) v.0.key_line v.0.value_line),
        fields_in,
        split_line-append key value v.0.key_name,
      )
      (ap (◌∷◌ (key, value)) (fields_in-render fs v.1))

pub All-append {ℓ κ} :
    {A : Type ℓ} (P : A → Type κ) (xs ys : List A) → All P xs → All P ys → All P (xs ++ ys)
All-append P [] ys h k = k
All-append P (x ∷ xs) ys h k = (h.0, All-append P xs ys h.1 k)

pub All-join {ℓ κ} :
    {A : Type ℓ} (P : A → Type κ) (xss : List (List A)) → All (All P) xss → All P (join xss)
All-join P [] h = tt
All-join P (xs ∷ xss) h = All-append P xs (join xss) h.0 (All-join P xss h.1)
