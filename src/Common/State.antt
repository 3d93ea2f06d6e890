-- ===== src/Common/State.antt =====
-- Stateful C code: a step takes the state to a result and a new state, and `none` is a fault, such
-- as a dereference of NULL or of freed memory.
use Prim.Native.Nat.{ℕ, zero, suc}
use mathlib.Core.Path.{◌≡◌, refl, ap, subst, subst₂}
use mathlib.Core.Logic.{◌≢◌}
use mathlib.Core.Bool.{Bool, true, false}
use mathlib.Core.List.{List, [], ◌∷◌, ◌++◌}
use mathlib.Core.Option.{Option, none, some}
use entrance.Common.Tests.{if◌then◌else◌}
use entrance.Common.Lists.{get_elem?, set, length, get_elem?-set_ne}

abbrev pub M : Type 0 → Type 0 → Type 0
M S A = S → Option (A × S)

infixl 5 ◌>>=◌ ◌>>◌
abbrev pub ◌>>=◌ : {S A B : Type 0} → M S A → (A → M S B) → M S B
◌>>=◌ m f s = elim (m s) [ none ↦ none | some (a, s') ↦ f a s' ]

abbrev pub ◌>>◌ : {S B : Type 0} → M S (Unit {0}) → M S B → M S B
m >> k = m >>= λ _. k

abbrev pub ret : {S A : Type 0} → A → M S A
ret a s = some (a, s)

abbrev pub get : {S : Type 0} → M S S
get s = some (s, s)

abbrev pub modify : {S : Type 0} → (S → S) → M S (Unit {0})
modify f s = some (tt, f s)

-- A pointer that the code dereferences.
abbrev pub deref : {S A : Type 0} → Option A → M S A
deref none s = none
deref (some a) s = some (a, s)

-- An entry of an array of pointers: NULL, a live object, or memory that was freed while the
-- entry kept its address.
pub data Slot (A : Type 0) : Type 0 where
  null freed : Slot A
  live : A → Slot A

abbrev pub object : {A : Type 0} → Option (Slot A) → Option A
object none = none
object (some null) = none
object (some freed) = none
object (some (live a)) = some a

-- `slots[id]->…`: a fault unless the entry is in range and live.
unfoldable pub slot_get : {A : Type 0} → List (Slot A) → ℕ → Option A
slot_get slots id = object (get_elem? slots id)

unfoldable pub slot_set : {A : Type 0} → List (Slot A) → ℕ → A → List (Slot A)
slot_set slots id a = set slots id (live a)

pub slot_get-slot_set :
    {A : Type 0} (xs : List (Slot A)) (id : ℕ) (a : A) {b : A}
    → slot_get xs id ≡ some b
    → slot_get (slot_set xs id a) id ≡ some a
unfolding slot_get slot_set
slot_get-slot_set [] id a e = cc
slot_get-slot_set (x ∷ xs) zero a e = refl
slot_get-slot_set (x ∷ xs) (suc id) a e = slot_get-slot_set xs id a e

pub slot_get-slot_set_ne :
    {A : Type 0} (xs : List (Slot A)) (id j : ℕ) (a : A)
    → id ≢ j
    → slot_get (slot_set xs id a) j ≡ slot_get xs j
unfolding slot_get slot_set
slot_get-slot_set_ne xs id j a ne = ap object (get_elem?-set_ne xs id j (live a) ne)

pub slot_get-append :
    {A : Type 0} (xs ys : List (Slot A)) (j : ℕ) {a : A}
    → slot_get xs j ≡ some a
    → slot_get (xs ++ ys) j ≡ some a
unfolding slot_get
slot_get-append [] ys j e = cc
slot_get-append (x ∷ xs) ys zero e = e
slot_get-append (x ∷ xs) ys (suc j) e = slot_get-append xs ys j e

pub slot_get-append_last :
    {A : Type 0} (xs : List (Slot A)) (a : A) → slot_get (xs ++ live a ∷ []) (length xs) ≡ some a
unfolding slot_get
slot_get-append_last [] a = refl
slot_get-append_last (x ∷ xs) a = slot_get-append_last xs a

pub slot_set-slot_set :
    {A : Type 0} (xs : List (Slot A)) (id : ℕ) (a b : A)
    → slot_set (slot_set xs id a) id b ≡ slot_set xs id b
unfolding slot_set
slot_set-slot_set [] id a b = refl
slot_set-slot_set (x ∷ xs) zero a b = refl
slot_set-slot_set (x ∷ xs) (suc id) a b = ap (◌∷◌ x) (slot_set-slot_set xs id a b)

pub slot_set_self :
    {A : Type 0} (xs : List (Slot A)) (id : ℕ) (a : A)
    → slot_get xs id ≡ some a
    → slot_set xs id a ≡ xs
unfolding slot_get slot_set
slot_set_self [] id a e = refl
slot_set_self (null ∷ xs) zero a e = cc
slot_set_self (freed ∷ xs) zero a e = cc
slot_set_self (live b ∷ xs) zero a e = cc
slot_set_self (x ∷ xs) (suc id) a e = ap (◌∷◌ x) (slot_set_self xs id a e)

-- The other entries of the array.
abbrev pub SameElsewhere : {A : Type 0} → ℕ → List A → List A → Type 0
SameElsewhere id xs ys = (j : ℕ) → id ≢ j → get_elem? ys j ≡ get_elem? xs j

-- What every run of a step does to the state: a relation that it keeps.
pub record Keeps {S A : Type 0} (R : S → S → Type 0) (m : M S A) : Type 0 where
  pub keeps : (s : S) (a : A) (s' : S) → m s ≡ some (a, s') → R s s'

module _ {S : Type 0} (R : S → S → Type 0) (R_refl : (s : S) → R s s)
    (R_trans : (s t u : S) → R s t → R t u → R s u) where
  pub ret-Keeps : {A : Type 0} (a : A) → Keeps R (λ s. some (a, s))
  ret-Keeps a = record { keeps = λ s b s' h. subst (R s) (cc) (R_refl s) }

  pub modify-Keeps : (f : S → S) → ((s : S) → R s (f s)) → Keeps R (λ s. some (tt, f s))
  modify-Keeps f h = record { keeps = λ s a s' e. subst (R s) (cc) (h s) }

  pub deref-Keeps : {A : Type 0} (o : S → Option A) → Keeps R (λ s. deref (o s) s)
  deref-Keeps {A} o = record { keeps = λ s b s' h. go s b s' (o s) h }
    where
      go : (s : S) (b : A) (s' : S) (x : Option A) → deref x s ≡ some (b, s') → R s s'
      go s b s' none h = cc
      go s b s' (some a) h = subst (R s) (cc) (R_refl s)

  pub >>=-Keeps :
      {A B : Type 0} {m : M S A} {f : A → M S B}
      → Keeps R m
      → ((a : A) → Keeps R (f a))
      → Keeps R (m >>= f)
  >>=-Keeps {A} {B} {m} {f} km kf = record { keeps = λ s b u h. go s b u (m s) refl h }
    where
      go :
          (s : S) (b : B) (u : S) (o : Option (A × S))
          → m s ≡ o
          → ◌≡◌ {A = Option (B × S)} (elim o [ none ↦ none | some (a, s') ↦ f a s' ]) (some (b, u))
          → R s u
      go s b u none e k = cc
      go s b u (some (a, t)) e k = R_trans s t u (km.keeps s a t e) ((kf a).keeps t b u k)

  pub if-Keeps :
      {A : Type 0} (c : Bool) {m n : M S A} → Keeps R m → Keeps R n → Keeps R (if c then m else n)
  if-Keeps true km kn = km
  if-Keeps false km kn = kn

-- A postcondition of every run that does not fault.
pub record Ensures {S A : Type 0} (P : S → Type 0) (m : M S A) (Q : A → S → Type 0) : Type 0 where
  pub ensures : (s : S) (a : A) (t : S) → P s → m s ≡ some (a, t) → Q a t

module _ {S : Type 0} {P : S → Type 0} where
  pub ret-Ensures :
      {A : Type 0} {Q : A → S → Type 0} (a : A)
      → ((s : S) → P s → Q a s)
      → Ensures P (λ s. some (a, s)) Q
  ret-Ensures {Q = Q} a h = record {
    ensures = λ s b t p e. let eb : a ≡ b = cc in let et : s ≡ t = cc in subst₂ Q eb et (h s p);
  }

  pub >>=-Ensures :
      {A B : Type 0} {R : A → S → Type 0} {Q : B → S → Type 0} {m : M S A} {f : A → M S B}
      → Ensures P m R
      → ((a : A) → Ensures (R a) (f a) Q)
      → Ensures P (λ s. elim (m s) [ none ↦ none | some (a, t) ↦ f a t ]) Q
  >>=-Ensures {A} {B} {R} {Q} {m} {f} km kf = record {
    ensures = λ s b u p h. go s b u p (m s) refl h;
  }
    where
      go :
          (s : S) (b : B) (u : S)
          → P s
          → (o : Option (A × S)) → m s ≡ o
          → ◌≡◌ {A = Option (B × S)} (elim o [ none ↦ none | some (a, t) ↦ f a t ]) (some (b, u))
          → Q b u
      go s b u p none e k = cc
      go s b u p (some (a, t)) e k = (kf a).ensures t b u (km.ensures s a t p e) k

  pub deref-Ensures :
      {A : Type 0} {Q : A → S → Type 0} (o : S → Option A)
      → ((s : S) (a : A) → P s → Q a s)
      → Ensures P (λ s. deref (o s) s) Q
  deref-Ensures {A} {Q} o h = record { ensures = λ s b t p e. go s b t (o s) p e }
    where
      go : (s : S) (b : A) (t : S) (x : Option A) → P s → deref x s ≡ some (b, t) → Q b t
      go s b t none p e = cc
      go s b t (some a) p e = let eb : a ≡ b = cc in let et : s ≡ t = cc in subst₂ Q eb et (h s a p)

  pub if-Ensures :
      {A : Type 0} {Q : A → S → Type 0} (c : Bool) {m n : M S A}
      → (c ≡ true → Ensures P m Q)
      → (c ≡ false → Ensures P n Q)
      → Ensures P (if c then m else n) Q
  if-Ensures true km kn = km refl
  if-Ensures false km kn = kn refl
