-- ===== src/Socket/NodeReg/Context.antt =====
-- NetContextSet of socket/nodeproperty.go: the data that a session keeps under its keys. A key is a
-- string, and a value is nil, a string, or a value of another type.
use rocommon.Prelude.{
  ℕ, List, [], ◌∷◌, Option, none, some, Bool, true, false, if◌then◌else◌, ◌≡◌, ◌≢◌, refl, arith, ap,
  ◌∙◌, inl, inr, Bool-cases,
}
use rocommon.Prelude.Outcome.{Outcome, ok, panic}
use rocommon.Text.{String, ◌=s◌}
use rocommon.Text.Equal.{=s_refl, =s_eq}

pub data Value : Type 0 where
  nil : Value
  text : String → Value
  other : ℕ → Value

-- `dataMap`, where keyValueData holds the key again.
abbrev pub DataMap : Type 0
DataMap = List (String × Value)

-- `a.dataMap[key] = keyValueData{key, value}`, which both branches of `SetContextData` do.
unfoldable pub set_context_data : String → Value → DataMap → DataMap
unfolding ◌=s◌
set_context_data key value [] = (key, value) ∷ []
set_context_data key value ((k, v) ∷ m) =
    let rest = set_context_data key value m in if k =s key then (key, value) ∷ m else (k, v) ∷ rest

-- `GetContextData`
unfoldable pub get_context_data : String → DataMap → Option Value
unfolding ◌=s◌
get_context_data key [] = none
get_context_data key ((k, v) ∷ m) =
    let rest = get_context_data key m in if k =s key then some v else rest

-- What a pointer to a string, or to another type, points to.
pub data Target : Type 0 where
  to_string : String → Target
  to_other : Value → Target

-- `value.(string)`, and the setting by package reflect, which nil leaves out.
set_target : Value → Target → Outcome Target
set_target (text s) (to_string old) = ok (to_string s)
set_target nil (to_string old) = panic
set_target (other n) (to_string old) = panic
set_target nil (to_other old) = ok (to_other old)
set_target (text s) (to_other old) = ok (to_other (text s))
set_target (other n) (to_other old) = ok (to_other (other n))

raw_of : Option Value → Target → Outcome (Bool × Target)
unfolding set_target
raw_of none t = ok (false, t)
raw_of (some v) t = elim (set_target v t) [ ok u ↦ ok (true, u) | panic ↦ panic ]

-- `RawContextData`, for a value of the type that the pointer points to.
unfoldable pub raw_context_data : String → Target → DataMap → Outcome (Bool × Target)
unfolding raw_of
raw_context_data key t m = raw_of (get_context_data key m) t

=s_ne : (s t : String) → s ≢ t → (s =s t) ≡ false
=s_ne s t ne = elim (Bool-cases (s =s t)) [
  | inl same ↦ absurd (ne (=s_eq s t same))
  | inr apart ↦ apart
]

get-set_own :
    (key : String) (value : Value) (m : DataMap)
    → get_context_data key (set_context_data key value m) ≡ some value
unfolding get_context_data set_context_data
get-set_own key value [] = ground (arith, =s_refl key)
get-set_own key value ((k, v) ∷ m) = ground (arith, =s_refl key, get-set_own key value m)

get-set_other :
    (key read_key : String) (value : Value) (m : DataMap)
    → (key =s read_key) ≡ false
    → get_context_data read_key (set_context_data key value m) ≡ get_context_data read_key m
unfolding get_context_data set_context_data
get-set_other key read_key value [] h = ground (arith, h)
get-set_other key read_key value ((k, v) ∷ m) h = elim (Bool-cases (k =s key)) [
  | inl same ↦
      let e : (k =s read_key) ≡ false = ap (λ s. s =s read_key) (=s_eq k key same) ∙ h in
      ground (arith, h, same, e)
  | inr apart ↦ ground (arith, apart, get-set_other key read_key value m h)
]

-- What SetContextData put under a key RawContextData gives for that key alone: a string reaches a pointer
-- to a string, another value, nil among them, makes such a call panic, and every other key is read as before.
pub raw_context_data-set_context_data :
    (key : String) (value : Value) (old : String) (m : DataMap)
    → ((s : String)
        → value ≡ text s
        → raw_context_data key (to_string old) (set_context_data key value m)
          ≡ ok (true, to_string s))
      × (((s : String) → value ≢ text s)
          → raw_context_data key (to_string old) (set_context_data key value m) ≡ panic)
      × ((k : String) (t : Target)
          → key ≢ k
          → raw_context_data k t (set_context_data key value m) ≡ raw_context_data k t m)
unfolding raw_context_data
raw_context_data-set_context_data key value old m = (
  λ s e. ap (λ o. raw_of o (to_string old)) (get-set_own key value m ∙ ap some e),
  λ ne. ap (λ o. raw_of o (to_string old)) (get-set_own key value m) ∙ no_text value old ne,
  λ k t ne. ap (λ o. raw_of o t) (get-set_other key k value m (=s_ne key k ne)),
)
  where
    no_text :
        (value : Value) (old : String)
        → ((s : String) → value ≢ text s)
        → raw_of (some value) (to_string old) ≡ panic
    no_text nil old ne = refl
    no_text (text s) old ne = absurd (ne s refl)
    no_text (other n) old ne = refl
