-- ===== src/Control/Approvals.antt =====
-- The approvals of src-tauri/src/coding_control.rs: what an update does to the rows, and that a consumed
-- approval was one for exactly this action.
use mathlib.Core.List.{Memᴰ}
use open_mind_ai.Base.{
  ℕ, ◌+◌, Bool, true, false, ◌&&◌, Option, none, some, List, [], ◌∷◌, ltb, ◌==◌, if◌then◌else◌, ◌≡◌,
  refl, sym, ◌∙◌, ap, subst, ◌⊎◌, inl, inr, Bool-cases, arith,
}
use open_mind_ai.Base.Text.{Text, text_eq}
use open_mind_ai.Control.{
  CodingApproval, ApprovalStatus, is_approved, newer, latest, has_id, put_row, update_row, row_at,
}

-- 1 for a row that is approved and has this hash.
abbrev pub ready : Text → CodingApproval → ℕ
ready k a = if text_eq a.action_hash k && is_approved a.status then 1 else 0

abbrev pub count_ready : Text → List CodingApproval → ℕ
count_ready k [] = 0
count_ready k (a ∷ rows) = ready k a + count_ready k rows

-- The identifiers are distinct.
abbrev pub IsKeyed : List CodingApproval → Type 0
IsKeyed [] = Unit {0}
IsKeyed (a ∷ rows) = (has_id a.id rows ≡ false) × IsKeyed rows

newer-cases :
    (a : CodingApproval) (rest : Option CodingApproval) (r : CodingApproval)
    → newer a rest ≡ some r
    → (a ≡ r) ⊎ (rest ≡ some r)
newer-cases a none r h = inl (cc h)
newer-cases a (some b) r h = elim (Bool-cases (ltb a.requested_at b.requested_at)) [
  | inl e ↦ inr (rw e at h)
  | inr e ↦ let g : some a ≡ some r = rw e at h in inl (cc g)
]

pub latest-Memᴰ :
    (test : CodingApproval → Bool) (rows : List CodingApproval) (r : CodingApproval)
    → latest test rows ≡ some r
    → Memᴰ r rows × (test r ≡ true)
latest-Memᴰ test [] r h = absurd (cc h)
latest-Memᴰ test (a ∷ rows) r h = elim (Bool-cases (test a)) [
  | inl t ↦ elim (newer-cases a (latest test rows) r (rw t at h)) [
    | inl e ↦ (Memᴰ.head (sym e), subst (λ a. test a ≡ true) e t)
    | inr e ↦ let (m, u) = latest-Memᴰ test rows r e in (Memᴰ.tail m, u)
  ]
  | inr t ↦ let (m, u) = latest-Memᴰ test rows r (rw t at h) in (Memᴰ.tail m, u)
]

has_id-Memᴰ :
    (r : CodingApproval) (rows : List CodingApproval) → Memᴰ r rows → has_id r.id rows ≡ true
has_id-Memᴰ r [] h = elim h [ ]
has_id-Memᴰ r (a ∷ rows) (Memᴰ.head e) =
    let same : a.id ≡ r.id = ap (λ (a : CodingApproval). a.id) (sym e) in ground arith
has_id-Memᴰ r (a ∷ rows) (Memᴰ.tail m) = ground (arith, has_id-Memᴰ r rows m)

pub row_at-Memᴰ :
    (r : CodingApproval) (rows : List CodingApproval)
    → IsKeyed rows
    → Memᴰ r rows
    → row_at r.id rows ≡ some r
row_at-Memᴰ r [] k h = elim h [ ]
row_at-Memᴰ r (a ∷ rows) (fresh, k) (Memᴰ.head e) =
    let same : a.id ≡ r.id = ap (λ (a : CodingApproval). a.id) (sym e) in
    let found : (a.id == r.id) ≡ true = ground arith in rw found (ap some (sym e))
row_at-Memᴰ r (a ∷ rows) (fresh, k) (Memᴰ.tail m) = elim (Bool-cases (a.id == r.id)) [
  | inl e ↦
      let same : a.id ≡ r.id = ground arith in
      let clash : true ≡ false =
        sym (has_id-Memᴰ r rows m) ∙ ap (λ i. has_id i rows) (sym same) ∙ fresh in
      absurd (cc clash)
  | inr e ↦ rw e (row_at-Memᴰ r rows k m)
]

-- An update changes the row with the key, and that alone.
module _ (i : ℕ) (test : ApprovalStatus → Bool) (f : CodingApproval → CodingApproval) where
  pub record Updated (rows rows' : List CodingApproval) : Type 0 where
    pub row : CodingApproval
    pub found : row_at i rows ≡ some row
    pub passed : test row.status ≡ true
    pub counted :
        (k : Text) → count_ready k rows' + ready k row ≡ count_ready k rows + ready k (f row)
    pub ids : (j : ℕ) → has_id j rows' ≡ has_id j rows
    pub now_there : row_at i rows' ≡ some (f row)
    pub keyed : IsKeyed rows → IsKeyed rows'

  module _ (keeps : (a : CodingApproval) → (f a).id ≡ a.id) where
    put_row-some :
        (a : CodingApproval) (o : Option (List CodingApproval)) (rows' : List CodingApproval)
        → put_row a o ≡ some rows'
        → (rest : List CodingApproval) × (o ≡ some rest) × (a ∷ rest ≡ rows')
    put_row-some a none rows' h = absurd (cc h)
    put_row-some a (some rest) rows' h = (rest, refl, cc h)

    here-Updated :
        (a : CodingApproval) (rows : List CodingApproval)
        → (a.id == i) ≡ true
        → test a.status ≡ true
        → Updated (a ∷ rows) (f a ∷ rows)
    here-Updated a rows e t =
        let same : ((f a).id == i) ≡ true = rw (keeps a) e in
        record {
          row = a;
          found = rw e refl;
          passed = t;
          counted = λ k. omega arith;
          ids = λ j. rw (keeps a) refl;
          now_there = rw same refl;
          keyed = λ (fresh, k). (rw (keeps a) fresh, k);
        }

    later-Updated :
        (a : CodingApproval) (rows rest : List CodingApproval)
        → (a.id == i) ≡ false
        → Updated rows rest
        → Updated (a ∷ rows) (a ∷ rest)
    later-Updated a rows rest e u = record {
      row = u.row;
      found = rw e u.found;
      passed = u.passed;
      counted = λ k. omega (arith, u.counted k);
      ids = λ j. rw (u.ids j) refl;
      now_there = rw e u.now_there;
      keyed = λ (fresh, k). (u.ids a.id ∙ fresh, u.keyed k);
    }

    pub update_row-Updated :
        (rows rows' : List CodingApproval)
        → update_row i test f rows ≡ some rows'
        → Updated rows rows'
    update_row-Updated [] rows' h = absurd (cc h)
    update_row-Updated (a ∷ rows) rows' h = elim (Bool-cases (a.id == i)) [
      | inl e ↦ elim (Bool-cases (test a.status)) [
        | inl t ↦
            let g : some (f a ∷ rows) ≡ some rows' = rw (e, t) at h in
            let same : f a ∷ rows ≡ rows' = cc g in
            subst (Updated (a ∷ rows)) same (here-Updated a rows e t)
        | inr t ↦ let g : none ≡ some rows' = rw (e, t) at h in absurd (cc g)
      ]
      | inr e ↦
          let (rest, found, same) = put_row-some a (update_row i test f rows) rows' (rw e at h) in
          subst (Updated (a ∷ rows)) same
            (later-Updated a rows rest e (update_row-Updated rows rest found))
    ]

  pub update_row-found :
      (rows : List CodingApproval) (a : CodingApproval)
      → row_at i rows ≡ some a
      → test a.status ≡ true
      → (rows' : List CodingApproval) × (update_row i test f rows ≡ some rows')
  update_row-found [] a h t = absurd (cc h)
  update_row-found (b ∷ rows) a h t = elim (Bool-cases (b.id == i)) [
    | inl e ↦
        let g : some b ≡ some a = rw e at h in
        let same : a ≡ b = cc g in
        let u : test b.status ≡ true =
          subst (λ (a : CodingApproval). test a.status ≡ true) same t in
        (f b ∷ rows, rw (e, u) refl)
    | inr e ↦ let (rest, q) = update_row-found rows a (rw e at h) t in (b ∷ rest, rw (e, q) refl)
  ]
