-- ===== src/Punch/Rendezvous/Entries.antt =====
-- What the dictionaries of the rendezvous server hold: each key once, known roles and port types only.
use v3xctrl.Base.{
  ◌≡◌, refl, String, Bool, true, false, ◌&&◌, Option, none, some, [], ◌∷◌, ◌==◌, string_eq, arith,
  all, Bool-cases, inl, inr,
}
use v3xctrl.Base.Dict.{Dict, get, put, pop, values, get-put, get-pop}
use v3xctrl.Base.Sets.{contains}
use v3xctrl.Punch.Rendezvous.{Entry, Session, Sessions, or_empty, set_entry, roles, valid_types}

-- Each key stands once and is allowed, and each value has the property.
abbrev pub Holds : {V : Type 0} → (String → Bool) → (V → Type 0) → Dict String V → Type 0
Holds allowed Q [] = Unit {0}
Holds allowed Q ((k, v) ∷ d) = (get k d ≡ none) × (allowed k ≡ true) × Q v × Holds allowed Q d

module _ {V : Type 0} (allowed : String → Bool) (Q : V → Type 0) where
  pub Holds-put :
      (k : String) (v : V) (d : Dict String V)
      → allowed k ≡ true
      → Q v
      → Holds allowed Q d
      → Holds allowed Q (put k v d)
  unfolding put get
  Holds-put k v [] a q h = (refl, a, q, tt)
  Holds-put k v ((j, w) ∷ d) a q h = elim (Bool-cases (j == k)) [
    | inl e ↦ rw e (h.0, h.1, q, h.3)
    | inr e ↦ rw e (
      ground (arith, get-put k j v d, string_eq.same_iff k j, string_eq.same_iff j k, h.0),
      h.1,
      h.2,
      Holds-put k v d a q h.3,
    )
  ]

  pub Holds-pop : (k : String) (d : Dict String V) → Holds allowed Q d → Holds allowed Q (pop k d)
  unfolding pop
  Holds-pop k [] h = tt
  Holds-pop k ((j, w) ∷ d) h = elim (Bool-cases (j == k)) [
    | inl e ↦ rw e (Holds-pop k d h.3)
    | inr e ↦ rw e (ground (arith, get-pop k j d, h.0), h.1, h.2, Holds-pop k d h.3)
  ]

  pub Holds-get :
      (k : String) (v : V) (d : Dict String V) → Holds allowed Q d → get k d ≡ some v → Q v
  unfolding get
  Holds-get k v [] h e = absurd (ground arith)
  Holds-get k v ((j, w) ∷ d) h e = elim (Bool-cases (j == k)) [
    | inl m ↦ let same : v ≡ w = ground arith in rw same h.2
    | inr m ↦ Holds-get k v d h.3 (ground arith)
  ]

abbrev pub any_key : String → Bool
any_key k = true

abbrev pub is_role : String → Bool
is_role k = contains k roles

abbrev pub is_type : String → Bool
is_type k = contains k valid_types

abbrev pub AreEntries : Dict String Entry → Type 0
AreEntries = Holds is_type (λ (e : Entry). Unit {0})

abbrev pub IsSession : Session → Type 0
IsSession = Holds is_role AreEntries

abbrev pub AreSessions : Sessions → Type 0
AreSessions = Holds any_key IsSession

or_empty-Holds :
    {V : Type 0} (allowed : String → Bool) (Q : V → Type 0) (o : Option (Dict String V))
    → ((d : Dict String V) → o ≡ some d → Holds allowed Q d)
    → Holds allowed Q (or_empty o)
unfolding or_empty
or_empty-Holds allowed Q none h = tt
or_empty-Holds allowed Q (some d) h = h d refl

pub set_entry-IsSession :
    (role pt : String) (e : Entry) (id : String) (s : Sessions)
    → is_role role ≡ true
    → is_type pt ≡ true
    → AreSessions s
    → IsSession (set_entry role pt e (or_empty (get id s)))
unfolding set_entry
set_entry-IsSession role pt e id s hr hp h =
    let session = or_empty (get id s) in
    let old =
      or_empty-Holds is_role AreEntries (get id s) (λ d. Holds-get any_key IsSession id d s h) in
    let entries =
      or_empty-Holds is_type (λ (x : Entry). Unit {0}) (get role session)
        (λ d. Holds-get is_role AreEntries role d session old) in
    Holds-put is_role AreEntries role (put pt e (or_empty (get role session))) session hr
      (Holds-put is_type (λ (x : Entry). Unit {0}) pt e (or_empty (get role session)) hp tt entries)
      old

-- A test of a value that may be missing.
abbrev pub if_there : {V : Type 0} → (V → Bool) → Option V → Bool
if_there test none = true
if_there test (some v) = test v

-- All values of a dictionary with two allowed keys.
pub all-values :
    {V : Type 0} (Q : V → Type 0) (test : V → Bool) (x y : String) (d : Dict String V)
    → (x == y) ≡ false
    → Holds (λ k. contains k (x ∷ y ∷ [])) Q d
    → all test (values d) ≡ (if_there test (get x d) && if_there test (get y d))
unfolding all get contains
all-values Q test x y [] n h = refl
all-values Q test x y ((k, v) ∷ d) n h =
    let ih = all-values Q test x y d n h.3 in
    let missing = h.0 in
    let known = h.1 in
    ground (
      arith,
      string_eq.same_iff k x,
      string_eq.same_iff k y,
      string_eq.same_iff x k,
      string_eq.same_iff y k,
      string_eq.same_iff x y,
    )
