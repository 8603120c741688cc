-- ===== src/Scenario/Codec.antt =====
-- Encodings of values as bytes, for platforms at which the theorems of the scenarios are tried.
use Prim.Native.Nat.{Ordering, compare}
use Prim.Native.Char.{Char, IsScalar, nul, char, code}
use Prim.Native.String.{String, [] as empty, ◌∷◌ as cons}
use idempotent_transformer.Common.{
  ℕ, zero, suc, ◌≡◌, ◌⊎◌, inl, inr, refl, sym, ap, ◌∙◌, Option, none, some, List, [], ◌∷◌, ◌++◌,
  length,
}

-- An encoding that can be read off the front of a list.
pub record Codec (A : Type 0) : Type 0 where
  pub encode : A → List ℕ
  pub decode : List ℕ → A × List ℕ
  pub law : (a : A) (rest : List ℕ) → decode (encode a ++ rest) ≡ (a, rest)

append_assoc : {A : Type 0} (a b c : List A) → (a ++ b) ++ c ≡ a ++ (b ++ c)
append_assoc [] b c = refl
append_assoc (x ∷ a) b c = ap (λ l. x ∷ l) (append_assoc a b c)

abbrev first : List ℕ → ℕ × List ℕ
first [] = (0, [])
first (n ∷ rest) = (n, rest)

abbrev pub number : Codec ℕ
number = record { encode = λ n. n ∷ []; decode = first; law = λ n rest. refl }

module _ {A B : Type 0} (a : Codec A) (b : Codec B) where
  abbrev pair_decode : List ℕ → (A × B) × List ℕ
  pair_decode l = let (x, rest) = a.decode l in let (y, rest') = b.decode rest in ((x, y), rest')

  pub pair_law :
      (x : A) (y : B) (rest : List ℕ)
      → pair_decode ((a.encode x ++ b.encode y) ++ rest) ≡ ((x, y), rest)
  pair_law x y rest =
      rw (append_assoc (a.encode x) (b.encode y) rest)
        (rw (a.law x (b.encode y ++ rest)) (rw (b.law y rest) refl))

  abbrev pub pair : Codec (A × B)
  pair = record {
    encode = λ (x, y). a.encode x ++ b.encode y;
    decode = pair_decode;
    law = λ (x, y) rest. pair_law x y rest;
  }

-- Values that are the same up to a change of form.
abbrev pub by :
    {A B : Type 0} (to : A → B) (from : B → A) → ((a : A) → from (to a) ≡ a) → Codec B → Codec A
by to from inverse b = record {
  encode = λ a. b.encode (to a);
  decode = λ l. let (y, rest) = b.decode l in (from y, rest);
  law = λ a rest. ap (λ (y, r). (from y, r)) (b.law (to a) rest) ∙ ap (λ x. (x, rest)) (inverse a);
}

module _ {A : Type 0} (a : Codec A) where
  abbrev encode_all : List A → List ℕ
  encode_all [] = []
  encode_all (x ∷ xs) = a.encode x ++ encode_all xs

  abbrev decode_all : ℕ → List ℕ → List A × List ℕ
  decode_all zero l = ([], l)
  decode_all (suc n) l =
      let (x, rest) = a.decode l in let (xs, rest') = decode_all n rest in (x ∷ xs, rest')

  pub list_law :
      (xs : List A) (rest : List ℕ) → decode_all (length xs) (encode_all xs ++ rest) ≡ (xs, rest)
  list_law [] rest = refl
  list_law (x ∷ xs) rest =
      rw (append_assoc (a.encode x) (encode_all xs) rest)
        (rw (a.law x (encode_all xs ++ rest)) (rw (list_law xs rest) refl))

  abbrev list_decode : List ℕ → List A × List ℕ
  list_decode [] = ([], [])
  list_decode (n ∷ rest) = decode_all n rest

  abbrev pub list : Codec (List A)
  list = record { encode = λ xs. length xs ∷ encode_all xs; decode = list_decode; law = list_law }

  abbrev option_encode : Option A → List ℕ
  option_encode none = 0 ∷ []
  option_encode (some x) = 1 ∷ a.encode x

  abbrev option_decode : List ℕ → Option A × List ℕ
  option_decode [] = (none, [])
  option_decode (zero ∷ rest) = (none, rest)
  option_decode (suc n ∷ rest) = let (x, rest') = a.decode rest in (some x, rest')

  pub option_law :
      (o : Option A) (rest : List ℕ) → option_decode (option_encode o ++ rest) ≡ (o, rest)
  option_law none rest = refl
  option_law (some x) rest = rw (a.law x rest) refl

  abbrev pub option : Codec (Option A)
  option = record { encode = option_encode; decode = option_decode; law = option_law }

data Order (o : Ordering) : Type 0 where
  is_lt : o ≡ Ordering.lt → Order o
  is_eq : o ≡ Ordering.eq → Order o
  is_gt : o ≡ Ordering.gt → Order o

order : (o : Ordering) → Order o
order Ordering.lt = is_lt refl
order Ordering.eq = is_eq refl
order Ordering.gt = is_gt refl

-- Whether a number is that of a character, with all that such a proof can be.
abbrev Scalar : ℕ → Type 0
Scalar n = ((p : IsScalar n) × ((q : IsScalar n) → q ≡ p)) ⊎ (IsScalar n → ⊥)

Scalar-above :
    (n : ℕ) (b c : Ordering)
    → Order (compare n 55296)
    → compare 57343 n ≡ b
    → compare n 1114112 ≡ c
    → Scalar n
Scalar-above n b c (is_lt e) f g = rw e (inl (tt, λ q. refl))
Scalar-above n Ordering.lt Ordering.lt (is_eq e) f g = rw (e, f, g) (inl (tt, λ q. refl))
Scalar-above n Ordering.lt Ordering.lt (is_gt e) f g = rw (e, f, g) (inl (tt, λ q. refl))
Scalar-above n Ordering.lt Ordering.eq (is_eq e) f g = rw (e, f, g) (inr (λ q. q))
Scalar-above n Ordering.lt Ordering.eq (is_gt e) f g = rw (e, f, g) (inr (λ q. q))
Scalar-above n Ordering.lt Ordering.gt (is_eq e) f g = rw (e, f, g) (inr (λ q. q))
Scalar-above n Ordering.lt Ordering.gt (is_gt e) f g = rw (e, f, g) (inr (λ q. q))
Scalar-above n Ordering.eq c (is_eq e) f g = rw (e, f) (inr (λ q. q))
Scalar-above n Ordering.eq c (is_gt e) f g = rw (e, f) (inr (λ q. q))
Scalar-above n Ordering.gt c (is_eq e) f g = rw (e, f) (inr (λ q. q))
Scalar-above n Ordering.gt c (is_gt e) f g = rw (e, f) (inr (λ q. q))

abbrev character : (n : ℕ) → Scalar n → Char
character n (inl (p, _)) = char n p
character n (inr _) = nul

abbrev char_of : ℕ → Char
char_of n =
    character n
      (Scalar-above n (compare 57343 n) (compare n 1114112) (order (compare n 55296)) refl refl)

character_lem : (n : ℕ) (p : IsScalar n) (s : Scalar n) → character n s ≡ char n p
character_lem n p (inl (q, same)) = ap (char n) (sym (same p))
character_lem n p (inr never) = absurd (never p)

char_of-code : (c : Char) → char_of (code c) ≡ c
char_of-code (char n p) = character_lem n p _

pub text_encode : String → List ℕ
text_encode empty = 0 ∷ []
text_encode (cons c s) = suc (code c) ∷ text_encode s

pub text_decode : List ℕ → String × List ℕ
text_decode [] = ("", [])
text_decode (zero ∷ rest) = ("", rest)
text_decode (suc n ∷ rest) = let (s, rest') = text_decode rest in (cons (char_of n) s, rest')

pub text_law : (s : String) (rest : List ℕ) → text_decode (text_encode s ++ rest) ≡ (s, rest)
unfolding text_encode text_decode
text_law empty rest = refl
text_law (cons c s) rest = rw (text_law s rest) (rw (char_of-code c) refl)

abbrev pub text : Codec String
text = record { encode = text_encode; decode = text_decode; law = text_law }
