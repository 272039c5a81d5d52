-- ===== src/Crawl/Extracted.antt =====
-- The links of a page in order and without repetitions.
use lala_search.Prelude.{
  ◌≡◌, ◌≢◌, refl, sym, ◌∙◌, subst, ◌↔◌, inl, inr, true, false, Option, none, some, List, [], ◌∷◌,
  All, arith, Bool-cases, if◌then◌else◌,
}
use lala_search.Prelude.Text.{
  Text, codes, trim, is_empty_text, contains, to_lowercase, text_eq, text_eq_iff, text_ltb,
}
use lala_search.Prelude.Table.{insert_row, order_rows}
use lala_search.Crawl.Order.{In}
use lala_search.Crawl.Web.{Anchor, Web}
use lala_search.Crawl.Links.{
  dedup_after, dedup, is_nofollow, resolve_url, collect_links, extract_links,
}

text_ltb_trans : (s t u : Text) → text_ltb s t ≡ true → text_ltb t u ≡ true → text_ltb s u ≡ true
unfolding text_ltb
text_ltb_trans [] [] u h k = cc
text_ltb_trans [] (d ∷ t) [] h k = cc
text_ltb_trans [] (d ∷ t) (f ∷ u) h k = refl
text_ltb_trans (c ∷ s) [] u h k = cc
text_ltb_trans (c ∷ s) (d ∷ t) [] h k = cc
text_ltb_trans (c ∷ s) (d ∷ t) (f ∷ u) h k = ground (arith, h, k, text_ltb_trans s t u)

-- Of two texts that are not the same, one comes first.
text_ltb_total : (s t : Text) → text_ltb s t ≡ false → text_eq t s ≡ false → text_ltb t s ≡ true
unfolding text_ltb text_eq
text_ltb_total [] [] h k = cc
text_ltb_total [] (d ∷ t) h k = cc
text_ltb_total (c ∷ s) [] h k = refl
text_ltb_total (c ∷ s) (d ∷ t) h k = ground (arith, h, k, text_ltb_total s t)

text_ltb_asym : (s t : Text) → text_ltb s t ≡ true → text_ltb t s ≡ false
unfolding text_ltb
text_ltb_asym [] [] h = cc
text_ltb_asym [] (d ∷ t) h = refl
text_ltb_asym (c ∷ s) [] h = cc
text_ltb_asym (c ∷ s) (d ∷ t) h = ground (arith, h, text_ltb_asym s t)

not_before_trans :
    (s t u : Text) → text_ltb t s ≡ false → text_ltb u t ≡ false → text_ltb u s ≡ false
not_before_trans s t u h k = elim (Bool-cases (text_ltb u s)) [
  | inr after ↦ after
  | inl before ↦ elim (Bool-cases (text_eq s t)) [
    | inl same ↦
        let named : s ≡ t = (text_eq_iff s t).0 same in
        let clash : text_ltb u s ≡ false = subst (λ v. text_ltb u v ≡ false) (sym named) k in cc
    | inr apart ↦ let clash = text_ltb_trans u s t before (text_ltb_total t s h apart) in cc
  ]
]

-- Each text comes before all that follow it.
abbrev pub IsAscending : List Text → Type 0
IsAscending [] = Unit
IsAscending (s ∷ texts) = All (λ t. text_ltb s t ≡ true) texts × IsAscending texts

-- No text comes before one that it follows.
abbrev IsSorted : List Text → Type 0
IsSorted [] = Unit
IsSorted (s ∷ texts) = All (λ t. text_ltb t s ≡ false) texts × IsSorted texts

All-after :
    (s t : Text) (texts : List Text)
    → text_ltb t s ≡ false
    → All (λ u. text_ltb u t ≡ false) texts
    → All (λ u. text_ltb u s ≡ false) texts
All-after s t [] h all = tt
All-after s t (u ∷ texts) h (k, all) = (not_before_trans s t u h k, All-after s t texts h all)

All-insert_row :
    (P : Text → Type 0) (s : Text) (texts : List Text)
    → P s
    → All P texts
    → All P (insert_row text_ltb s texts)
unfolding insert_row
All-insert_row P s [] p all = (p, tt)
All-insert_row P s (t ∷ texts) p (q, all) =
    elim (text_ltb t s)
      as (λ b. All P (if b then t ∷ insert_row text_ltb s texts else s ∷ t ∷ texts)) [
        | true ↦ (q, All-insert_row P s texts p all)
        | false ↦ (p, (q, all))
      ]

insert_row-IsSorted :
    (s : Text) (texts : List Text) → IsSorted texts → IsSorted (insert_row text_ltb s texts)
unfolding insert_row
insert_row-IsSorted s [] sorted = (tt, tt)
insert_row-IsSorted s (t ∷ texts) (after, sorted) = elim (Bool-cases (text_ltb t s)) [
  | inl before ↦ rw before (
    All-insert_row (λ u. text_ltb u t ≡ false) s texts (text_ltb_asym t s before) after,
    insert_row-IsSorted s texts sorted,
  )
  | inr behind ↦ rw behind ((behind, All-after s t texts behind after), (after, sorted))
]

order_rows-IsSorted : (texts : List Text) → IsSorted (order_rows text_ltb texts)
unfolding order_rows
order_rows-IsSorted [] = tt
order_rows-IsSorted (s ∷ texts) =
    insert_row-IsSorted s (order_rows text_ltb texts) (order_rows-IsSorted texts)

All-before :
    (s t : Text) (texts : List Text)
    → text_ltb s t ≡ true
    → All (λ u. text_ltb t u ≡ true) texts
    → All (λ u. text_ltb s u ≡ true) texts
All-before s t [] h all = tt
All-before s t (u ∷ texts) h (k, all) = (text_ltb_trans s t u h k, All-before s t texts h all)

dedup_after-IsAscending :
    (s : Text) (texts : List Text) → IsSorted (s ∷ texts) → IsAscending (s ∷ dedup_after s texts)
unfolding dedup_after
dedup_after-IsAscending s [] sorted = (tt, tt)
dedup_after-IsAscending s (t ∷ texts) ((behind, more), (after, sorted)) =
    let (all, rest) = dedup_after-IsAscending t texts (after, sorted) in
    elim (Bool-cases (text_eq s t)) [
      | inl same ↦
          let named = (text_eq_iff s t).0 same in
          rw same (
            subst (λ v. All (λ u. text_ltb v u ≡ true) (dedup_after t texts)) (sym named) all,
            rest,
          )
      | inr apart ↦
          let before = text_ltb_total t s behind apart in
          rw apart ((before, All-before s t (dedup_after t texts) before all), (all, rest))
    ]

dedup-IsAscending : (texts : List Text) → IsSorted texts → IsAscending (dedup texts)
unfolding dedup
dedup-IsAscending [] sorted = tt
dedup-IsAscending (s ∷ texts) sorted = dedup_after-IsAscending s texts sorted

In-insert_row :
    (x s : Text) (texts : List Text) → In x (insert_row text_ltb s texts) ↔ In x (s ∷ texts)
unfolding insert_row
In-insert_row x s [] = (λ h. h, λ h. h)
In-insert_row x s (t ∷ texts) =
    let (there, back) = In-insert_row x s texts in
    elim (text_ltb t s)
      as (λ b.
        In x (if b then t ∷ insert_row text_ltb s texts else s ∷ t ∷ texts)
        ↔ In x (s ∷ t ∷ texts)) [
          | true ↦ (
            λ h. elim h [
              | inl is ↦ inr (inl is)
              | inr more ↦ elim (there more) [ inl is ↦ inl is | inr at ↦ inr (inr at) ]
            ],
            λ h. elim h [
              | inl is ↦ inr (back (inl is))
              | inr more ↦ elim more [ inl is ↦ inl is | inr at ↦ inr (back (inr at)) ]
            ],
          )
          | false ↦ (λ h. h, λ h. h)
        ]

In-order_rows : (x : Text) (texts : List Text) → In x (order_rows text_ltb texts) ↔ In x texts
unfolding order_rows
In-order_rows x [] = (λ h. h, λ h. h)
In-order_rows x (s ∷ texts) =
    let (there, back) = In-order_rows x texts in
    let (out, into) = In-insert_row x s (order_rows text_ltb texts) in
    (
      λ h. elim (out h) [ inl is ↦ inl is | inr at ↦ inr (there at) ],
      λ h. elim h [ inl is ↦ into (inl is) | inr at ↦ into (inr (back at)) ],
    )

In-dedup_after :
    (x s : Text) (texts : List Text) → In x (s ∷ dedup_after s texts) ↔ In x (s ∷ texts)
unfolding dedup_after
In-dedup_after x s [] = (λ h. h, λ h. h)
In-dedup_after x s (t ∷ texts) =
    let (there, back) = In-dedup_after x t texts in
    elim (Bool-cases (text_eq s t)) [
      | inl same ↦
          let named = (text_eq_iff s t).0 same in
          rw same (
            λ h. elim h [ inl is ↦ inl is | inr at ↦ inr (there (inr at)) ],
            λ h. elim h [
              | inl is ↦ inl is
              | inr at ↦ elim (back at) [ inl is ↦ inl (is ∙ sym named) | inr more ↦ inr more ]
            ],
          )
      | inr apart ↦ rw apart (
        λ h. elim h [ inl is ↦ inl is | inr at ↦ inr (there at) ],
        λ h. elim h [ inl is ↦ inl is | inr at ↦ inr (back at) ],
      )
    ]

In-dedup : (x : Text) (texts : List Text) → In x (dedup texts) ↔ In x texts
unfolding dedup
In-dedup x [] = (λ h. h, λ h. h)
In-dedup x (s ∷ texts) = In-dedup_after x s texts

-- The attribute `rel` has the word `nofollow` in it, in whatever letters.
abbrev pub SaysNofollow : Option Text → Type 0
SaysNofollow none = ⊥
SaysNofollow (some rel) = contains (codes "nofollow") (to_lowercase rel) ≡ true

module _ (web : Web) (base_url link : Text) where
  -- The anchor may be followed, has a target, and the target is resolved to the link.
  abbrev pub LeadsTo : Anchor → Type 0
  LeadsTo a =
      (¬ SaysNofollow a.rel) × (trim a.href ≢ []) × (link ≡ resolve_url web base_url (trim a.href))

  abbrev pub SomeLeadsTo : List Anchor → Type 0
  SomeLeadsTo anchors = (a : Anchor) × In a anchors × LeadsTo a

  is_nofollow_iff : (rel : Option Text) → (is_nofollow rel ≡ true) ↔ SaysNofollow rel
  unfolding is_nofollow
  is_nofollow_iff none = ground arith
  is_nofollow_iff (some rel) = (λ h. h, λ h. h)

  is_empty_text_iff : (s : Text) → (is_empty_text s ≡ true) ↔ (s ≡ [])
  is_empty_text_iff [] = ground arith
  is_empty_text_iff (c ∷ s) = ground arith

  SomeLeadsTo-tail :
      (a : Anchor) (anchors : List Anchor)
      → ¬ LeadsTo a
      → SomeLeadsTo (a ∷ anchors) ↔ SomeLeadsTo anchors
  SomeLeadsTo-tail a anchors never = (
    λ (b, there, leads). elim there [
      | inl same ↦ absurd (never (subst LeadsTo same leads))
      | inr more ↦ (b, more, leads)
    ],
    λ (b, there, leads). (b, inr there, leads),
  )

  In-collect_links :
      (anchors : List Anchor) → In link (collect_links web base_url anchors) ↔ SomeLeadsTo anchors
  unfolding collect_links
  In-collect_links [] = (λ h. absurd h, λ h. absurd h.1)
  In-collect_links (a ∷ anchors) =
      let rest = In-collect_links anchors in
      elim (Bool-cases (is_nofollow a.rel)) [
        | inl marked ↦
            let only =
              SomeLeadsTo-tail a anchors (λ leads. leads.0 ((is_nofollow_iff a.rel).0 marked)) in
            rw marked (λ h. only.1 (rest.0 h), λ h. rest.1 (only.0 h))
        | inr unmarked ↦ elim (Bool-cases (is_empty_text (trim a.href))) [
          | inl empty ↦
              let only =
                SomeLeadsTo-tail a anchors
                  (λ leads. leads.1 ((is_empty_text_iff (trim a.href)).0 empty)) in
              rw (unmarked, empty) (λ h. only.1 (rest.0 h), λ h. rest.1 (only.0 h))
          | inr target ↦
              rw (unmarked, target)
                (
                  λ h. elim h [
                    | inl is ↦ (
                      a,
                      inl refl,
                      (
                        λ says. absurd (let marked = (is_nofollow_iff a.rel).1 says in cc),
                        λ nothing.
                            absurd (let empty = (is_empty_text_iff (trim a.href)).1 nothing in cc),
                        is,
                      ),
                    )
                    | inr more ↦ let (b, there, leads) = rest.0 more in (b, inr there, leads)
                  ],
                  λ (b, there, leads). elim there [
                    | inl same ↦
                        inl
                          (subst (λ c. link ≡ resolve_url web base_url (trim c.href)) same leads.2)
                    | inr more ↦ inr (rest.1 (b, more, leads))
                  ],
                )
        ]
      ]

-- The links of a page come in ascending order, each once. A link is among them exactly when an
-- anchor of the page that is not marked `nofollow` has a target, and the target, without the blanks
-- around it, is resolved to the link.
pub extract_links_correct :
    (web : Web) (html base_url : Text)
    → IsAscending (extract_links web html base_url)
      × ((link : Text)
          → In link (extract_links web html base_url)
            ↔ SomeLeadsTo web base_url link (web.anchors html))
unfolding extract_links
extract_links_correct web html base_url =
    let found = collect_links web base_url (web.anchors html) in
    (
      dedup-IsAscending _ (order_rows-IsSorted found),
      λ link.
          let leads = In-collect_links web base_url link (web.anchors html) in
          (
            λ h.
                leads.0
                  ((In-order_rows link found).0 ((In-dedup link (order_rows text_ltb found)).0 h)),
            λ h.
                (In-dedup link (order_rows text_ltb found)).1
                  ((In-order_rows link found).1 (leads.1 h)),
          ),
    )
