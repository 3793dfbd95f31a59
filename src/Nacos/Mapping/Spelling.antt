-- ===== src/Nacos/Mapping/Spelling.antt =====
-- A service name is read off one list of labels alone.
use doggy_dns.Common.{
  ℕ, zero, suc, ◌≡◌, ◌≢◌, inl, inr, refl, ap, sym, ◌∙◌, ◌+◌, ◌-◌, ◌≤◌, Bool, false, some, List, [],
  ◌∷◌, ◌++◌, ◌==◌, any, All, length, take, arith, Bool-cases, Option-cases,
}
use doggy_dns.Common.Dns.{Name}
use doggy_dns.Nacos.Mapping.{
  Text, dot, label_text, push_labels, stitch_labels, service_name_from_name,
}

-- No byte of the label is a dot.
abbrev IsPlain : List ℕ → Type 0
IsPlain label = All (λ b. b ≢ dot) label

-- The labels, each behind a dot.
dotted : List (List ℕ) → List ℕ
dotted [] = []
dotted (label ∷ labels) = dot ∷ (label ++ dotted labels)

no_dot : (label : List ℕ) → any (λ byte. byte == dot) label ≡ false → IsPlain label
no_dot [] h = tt
no_dot (b ∷ label) h = (ground arith, no_dot label (ground arith))

append_assoc : (xs ys zs : List ℕ) → (xs ++ ys) ++ zs ≡ xs ++ (ys ++ zs)
append_assoc [] ys zs = refl
append_assoc (x ∷ xs) ys zs = ap (λ l. x ∷ l) (append_assoc xs ys zs)

append_nil : (xs : List ℕ) → xs ++ [] ≡ xs
append_nil [] = refl
append_nil (x ∷ xs) = ap (λ l. x ∷ l) (append_nil xs)

-- Two spellings with the same first label and the same rest, from one text.
split_at_dot :
    (l r : List ℕ) (ls rs : List (List ℕ))
    → IsPlain l
    → IsPlain r
    → l ++ dotted ls ≡ r ++ dotted rs
    → (l ≡ r) × (dotted ls ≡ dotted rs)
unfolding dotted
split_at_dot [] [] ls rs hl hr e = (refl, e)
split_at_dot [] (y ∷ r) [] rs hl hr e = absurd cc
split_at_dot [] (y ∷ r) (k ∷ ls) rs hl hr e = absurd (hr.0 (let x : dot ≡ y = cc in sym x))
split_at_dot (x ∷ l) [] ls [] hl hr e = absurd cc
split_at_dot (x ∷ l) [] ls (k ∷ rs) hl hr e = absurd (hl.0 cc)
split_at_dot (x ∷ l) (y ∷ r) ls rs hl hr e =
    let rest : l ++ dotted ls ≡ r ++ dotted rs = cc in
    let ih = split_at_dot l r ls rs hl.1 hr.1 rest in
    let head : x ≡ y = cc in (ap (λ h. h ∷ l) head ∙ ap (λ t. y ∷ t) ih.0, ih.1)

dotted_inj :
    (ls rs : List (List ℕ)) → All IsPlain ls → All IsPlain rs → dotted ls ≡ dotted rs → ls ≡ rs
unfolding dotted
dotted_inj [] [] hl hr e = refl
dotted_inj [] (r ∷ rs) hl hr e = absurd cc
dotted_inj (l ∷ ls) [] hl hr e = absurd cc
dotted_inj (l ∷ ls) (r ∷ rs) hl hr e =
    let rest : l ++ dotted ls ≡ r ++ dotted rs = cc in
    let parts = split_at_dot l r ls rs hl.0 hr.0 rest in
    let ih = dotted_inj ls rs hl.1 hr.1 parts.1 in ap (λ h. h ∷ ls) parts.0 ∙ ap (λ t. r ∷ t) ih

module _ (is_utf8 : List ℕ → Bool) where
  label_text-some :
      (label : List ℕ) (text : Text)
      → label_text is_utf8 label ≡ some text
      → (text ≡ label) × IsPlain label
  unfolding label_text
  label_text-some label text h = elim (Bool-cases (any (λ byte. byte == dot) label)) [
    | inl d ↦ absurd (ground arith)
    | inr d ↦ (ground arith, no_dot label d)
  ]

  push_labels-some :
      (service : Text) (labels : List (List ℕ)) (text : Text)
      → push_labels is_utf8 service labels ≡ some text
      → (text ≡ service ++ dotted labels) × All IsPlain labels
  unfolding push_labels dotted
  push_labels-some service [] text h =
      let x : service ≡ text = cc in (sym x ∙ sym (append_nil service), tt)
  push_labels-some service (label ∷ labels) text h =
      elim (Option-cases (label_text is_utf8 label)) [
        | inl n ↦ absurd (ground arith)
        | inr (own, s) ↦
            let k : push_labels is_utf8 (service ++ (dot ∷ own)) labels ≡ some text =
              ground arith in
            let ih = push_labels-some (service ++ (dot ∷ own)) labels text k in
            let here = label_text-some label own s in
            (
              ih.0
                  ∙ append_assoc service (dot ∷ own) (dotted labels)
                  ∙ ap (λ o. service ++ (dot ∷ (o ++ dotted labels))) here.0,
              (here.1, ih.1),
            )
      ]

  stitch_labels-some :
      (label : List ℕ) (labels : List (List ℕ)) (text : Text)
      → stitch_labels is_utf8 (label ∷ labels) ≡ some text
      → (text ≡ label ++ dotted labels) × (IsPlain label × All IsPlain labels)
  unfolding stitch_labels
  stitch_labels-some label labels text h = elim (Option-cases (label_text is_utf8 label)) [
    | inl n ↦ absurd (ground arith)
    | inr (own, s) ↦
        let k : push_labels is_utf8 own labels ≡ some text = ground arith in
        let ih = push_labels-some own labels text k in
        let here = label_text-some label own s in
        (ih.0 ∙ ap (λ o. o ++ dotted labels) here.0, (here.1, ih.1))
  ]

  -- Two non-empty lists of labels that are stitched to one text are one list.
  stitch_labels_inj :
      (ls rs : List (List ℕ)) (text : Text)
      → ls ≢ []
      → rs ≢ []
      → stitch_labels is_utf8 ls ≡ some text
      → stitch_labels is_utf8 rs ≡ some text
      → ls ≡ rs
  stitch_labels_inj [] rs text hl hr h k = absurd (hl refl)
  stitch_labels_inj (l ∷ ls) [] text hl hr h k = absurd (hr refl)
  stitch_labels_inj (l ∷ ls) (r ∷ rs) text hl hr h k =
      let x = stitch_labels-some l ls text h in
      let y = stitch_labels-some r rs text k in
      let parts = split_at_dot l r ls rs x.1.0 y.1.0 (sym x.0 ∙ y.0) in
      let rest = dotted_inj ls rs x.1.1 y.1.1 parts.1 in
      ap (λ h. h ∷ ls) parts.0 ∙ ap (λ t. r ∷ t) rest

  -- The labels of the service in a name of the zone.
  abbrev pub service_labels : (name zone : Name) → List (List ℕ)
  service_labels name zone = take (length name - length zone - 2) name

  take-ne-nil : (n : ℕ) (name : Name) → 1 ≤ n → 1 ≤ length name → take n name ≢ []
  take-ne-nil zero name h k e = absurd (omega (arith, h))
  take-ne-nil (suc n) [] h k e = absurd (omega (arith, k))
  take-ne-nil (suc n) (x ∷ xs) h k e = cc

  service_name-some :
      (name zone : Name) (group namespace service : Text)
      → service_name_from_name is_utf8 name zone group namespace ≡ some service
      → (stitch_labels is_utf8 (service_labels name zone) ≡ some service)
        × (service_labels name zone ≢ [])
  unfolding service_name_from_name
  service_name-some name zone group namespace service h =
      elim (Option-cases (stitch_labels is_utf8 (service_labels name zone))) [
        | inl n ↦ absurd (ground arith)
        | inr (text, s) ↦
            let long : length zone + 3 ≤ length name = ground arith in
            (
              ground arith,
              take-ne-nil (length name - length zone - 2) name (omega (arith, long))
                  (omega (arith, long)),
            )
      ]

  -- Two names of one zone that ask for the same service spell its labels alike: no label with a
  -- dot in it stands for two labels.
  pub service_name-one_spelling :
      (name other zone : Name) (group namespace service : Text)
      → service_name_from_name is_utf8 name zone group namespace ≡ some service
      → service_name_from_name is_utf8 other zone group namespace ≡ some service
      → service_labels name zone ≡ service_labels other zone
  service_name-one_spelling name other zone group namespace service h k =
      let x = service_name-some name zone group namespace service h in
      let y = service_name-some other zone group namespace service k in
      stitch_labels_inj (service_labels name zone) (service_labels other zone) service x.1 y.1 x.0
        y.0
