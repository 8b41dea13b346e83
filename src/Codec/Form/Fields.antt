-- ===== src/Codec/Form/Fields.antt =====
-- Of the form codec (codec.go): the pairs of a form and the fields of its message.
use mathlib.Core.List.{Permᴰ, append_assoc}
use mathlib.Core.List.Permᴰ as Perm
use mathlib.Core.Path.{subst}
use rocommon.Prelude.{
  sym, List, [], ◌∷◌, ◌++◌, Bool, true, false, some, if◌then◌else◌, map, ◌≡◌, All, refl, ap, ◌∙◌,
  arith,
}
use rocommon.Prelude.Outcome.{Outcome, ok, ◌>>=◌, first_step}
use rocommon.Text.{String, ◌=s◌}
use rocommon.Text.Equal.{=s_eq}
use rocommon.Codec.Form.{
  FormField, struct, field_text, add_value, form_values, form2_url_values, less_eq, insert_key,
  sort_keys, pairs_of, encode_values, form_marshal,
}
use rocommon.Codec.Form.RoundTrip.{IsBytesPair, read_form, read_form-join}

-- The pairs after `Add`, and after the sort, are the same but for their order.
pairs-Append :
    (k : String) (vs : List String) (v : String) (qs : List (String × String))
    → Permᴰ (map (λ w. (k, w)) (vs ++ v ∷ []) ++ qs) ((k, v) ∷ map (λ w. (k, w)) vs ++ qs)
pairs-Append k [] v qs = Perm.refl ((k, v) ∷ qs)
pairs-Append k (w ∷ vs) v qs =
    Permᴰ.trans (Permᴰ.cons refl (pairs-Append k vs v qs)) (Permᴰ.swap refl refl)

pairs_of-add_value :
    (k v : String) (m : List (String × List String))
    → Permᴰ (pairs_of (add_value k v m)) ((k, v) ∷ pairs_of m)
unfolding pairs_of add_value
pairs_of-add_value k v [] = Perm.refl ((k, v) ∷ [])
pairs_of-add_value k v ((j, vs) ∷ m) = by_key (pairs_of-add_value k v m) (j =s k) refl
  where
    by_key :
        Permᴰ (pairs_of (add_value k v m)) ((k, v) ∷ pairs_of m)
        → (b : Bool) → (j =s k) ≡ b
        → Permᴰ
            (pairs_of (if b then (j, vs ++ v ∷ []) ∷ m else (j, vs) ∷ add_value k v m))
            ((k, v) ∷ map (λ w. (j, w)) vs ++ pairs_of m)
    by_key p true e =
        subst
          (λ i.
            Permᴰ (map (λ w. (j, w)) (vs ++ v ∷ []) ++ pairs_of m)
              ((i, v) ∷ map (λ w. (j, w)) vs ++ pairs_of m))
          (=s_eq j k e) (pairs-Append j vs v (pairs_of m))
    by_key p false e =
        Permᴰ.trans (Perm.append_left (map (λ w. (j, w)) vs) p)
          (Perm.middle (k, v) (map (λ w. (j, w)) vs) (pairs_of m))

swap_blocks : {A : Type 0} (xs ys zs : List A) → Permᴰ (xs ++ (ys ++ zs)) (ys ++ (xs ++ zs))
swap_blocks xs ys zs =
    subst (λ l. Permᴰ l (ys ++ (xs ++ zs))) (append_assoc xs ys zs)
      (subst (Permᴰ ((xs ++ ys) ++ zs)) (append_assoc ys xs zs)
        (Perm.append_right zs (Perm.append_comm xs ys)))

pairs_of-insert_key :
    (k : String) (vs : List String) (m : List (String × List String))
    → Permᴰ (pairs_of (insert_key (k, vs) m)) (pairs_of ((k, vs) ∷ m))
unfolding pairs_of insert_key
pairs_of-insert_key k vs [] = Perm.refl (map (λ w. (k, w)) vs ++ [])
pairs_of-insert_key k vs ((j, ws) ∷ m) = by_order (pairs_of-insert_key k vs m) (less_eq k j)
  where
    by_order :
        Permᴰ (pairs_of (insert_key (k, vs) m)) (map (λ w. (k, w)) vs ++ pairs_of m)
        → (b : Bool)
        → Permᴰ
            (pairs_of (if b then (k, vs) ∷ (j, ws) ∷ m else (j, ws) ∷ insert_key (k, vs) m))
            (map (λ w. (k, w)) vs ++ (map (λ w. (j, w)) ws ++ pairs_of m))
    by_order p true = Perm.refl (map (λ w. (k, w)) vs ++ (map (λ w. (j, w)) ws ++ pairs_of m))
    by_order p false =
        Permᴰ.trans (Perm.append_left (map (λ w. (j, w)) ws) p)
          (swap_blocks (map (λ w. (j, w)) ws) (map (λ w. (k, w)) vs) (pairs_of m))

pairs_of-sort_keys : (m : List (String × List String)) → Permᴰ (pairs_of (sort_keys m)) (pairs_of m)
unfolding sort_keys pairs_of
pairs_of-sort_keys [] = Perm.refl []
pairs_of-sort_keys ((k, vs) ∷ m) =
    Permᴰ.trans (pairs_of-insert_key k vs (sort_keys m))
      (Perm.append_left (map (λ v. (k, v)) vs) (pairs_of-sort_keys m))

-- The names and texts of fields.
unfoldable pub field_pairs : List FormField → Outcome (List (String × String))
field_pairs [] = ok []
field_pairs (f ∷ fs) = field_text f >>= λ s. field_pairs fs >>= λ ps. ok ((f.name, s) ∷ ps)

form_values-field_pairs :
    (fs : List FormField) (m : List (String × List String)) (ps : List (String × String))
    → field_pairs fs ≡ ok ps
    → (r : List (String × List String)) × (form_values m fs ≡ ok r)
      × Permᴰ (pairs_of r) (ps ++ pairs_of m)
unfolding form_values field_pairs
form_values-field_pairs [] m ps h =
    let no_pairs : [] ≡ ps = ground (arith, h) in
    (m, refl, subst (λ l. Permᴰ (pairs_of m) (l ++ pairs_of m)) no_pairs (Perm.refl (pairs_of m)))
form_values-field_pairs (f ∷ fs) m ps h =
    let (s, e, h1) = first_step (field_text f) _ h in
    let (qs, e1, h2) = first_step (field_pairs fs) _ h1 in
    let (r, e2, p) = form_values-field_pairs fs (add_value f.name s m) qs e1 in
    let first_pair : (f.name, s) ∷ qs ≡ ps = ground (arith, h2) in
    (
      r,
      ap (λ o. o >>= λ t. form_values (add_value f.name t m) fs) e ∙ e2,
      subst (λ l. Permᴰ (pairs_of r) (l ++ pairs_of m)) first_pair
          (Permᴰ.trans p (
            Permᴰ.trans (Perm.append_left qs (pairs_of-add_value f.name s m))
              (Perm.middle (f.name, s) qs (pairs_of m)))),
    )

All-Perm : {A : Type 0} (P : A → Type 0) {xs ys : List A} → Permᴰ xs ys → All P ys → All P xs
All-Perm P Permᴰ.nil h = h
All-Perm P (Permᴰ.cons e p) (hx, h) = (subst P (sym e) hx, All-Perm P p h)
All-Perm P (Permᴰ.swap e1 e2) (hx, (hy, h)) = (subst P (sym e1) hy, (subst P (sym e2) hx, h))
All-Perm P (Permᴰ.trans p q) h = All-Perm P p (All-Perm P q h)

-- Marshal of a struct whose fields have texts returns, and a reader of forms reads from it each field's name
-- with its text, in some order and as often as there are fields, whatever bytes names and texts hold.
pub form_marshal-read_form :
    (fs : List FormField) (ps : List (String × String))
    → field_pairs fs ≡ ok ps
    → All IsBytesPair ps
    → (out : String) × (qs : List (String × String)) × (form_marshal (struct fs) ≡ ok out)
      × (read_form out ≡ some qs)
      × Permᴰ qs ps
unfolding form_marshal form2_url_values encode_values pairs_of
form_marshal-read_form fs ps h bytes =
    let (r, e, p) = form_values-field_pairs fs [] ps h in
    let whole : Permᴰ (pairs_of (sort_keys r)) ps =
      Permᴰ.trans (pairs_of-sort_keys r) (Permᴰ.trans p (Perm.append-nil ps)) in
    (
      encode_values r,
      pairs_of (sort_keys r),
      ap (λ o. o >>= λ m. ok (encode_values m)) e,
      read_form-join (pairs_of (sort_keys r)) (All-Perm IsBytesPair whole bytes),
      whole,
    )
