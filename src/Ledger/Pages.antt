-- ===== src/Ledger/Pages.antt =====
-- The paginated verification is one walk over the range: the pages of 1,000 rows neither skip nor
-- repeat a row, on any table whose rows are numbered from 1 without a gap.
use sentinel_act.Prelude.{
  ℕ, zero, suc, ◌+◌, ◌-◌, ◌≤◌, ◌<◌, true, false, not, Option, none, some, List, [], ◌∷◌, ◌++◌, ◌≡◌,
  refl, ap, sym, ◌∙◌, take, drop, take-add, drop-all, take-drop, drop-add, length-take, length-drop,
  length, append-nil, is_empty, leb, ltb, arith, Bool-cases, inl, inr, if◌then◌else◌, ◌&&◌, ◌⊎◌,
  Option-cases, subst,
}
use sentinel_act.Ledger.{Host, Ledger, LedgerEntry}
use sentinel_act.Ledger.Verify.{
  Walk, walk_page, rows_between, upper_bound, is_past, is_none, verify_pages, check_entry_integrity,
  IntegrityReason,
}

unfoldable pub IsNumbered : ℕ → Ledger → Type 0
IsNumbered n [] = Unit
IsNumbered n (e ∷ es) = (e.sequence_number ≡ n) × IsNumbered (suc n) es

-- The rows from a number on, up to the last number of the range if it has one.
unfoldable pub range : Option ℕ → (cursor : ℕ) → Ledger → List LedgerEntry
range none cursor ledger = drop (cursor - 1) ledger
range (some to) cursor ledger = take (suc to - cursor) (drop (cursor - 1) ledger)

take_nil : (n : ℕ) → take {A = LedgerEntry} n [] ≡ []
take_nil zero = refl
take_nil (suc n) = refl

drop_nil : (n : ℕ) → drop {A = LedgerEntry} n [] ≡ []
drop_nil zero = refl
drop_nil (suc n) = refl

take_cong : (k l : ℕ) (es : Ledger) → k ≡ l → take k es ≡ take l es
take_cong k l es h = ap (λ n. take n es) h

drop_cong : (k l : ℕ) (es : Ledger) → k ≡ l → drop k es ≡ drop l es
drop_cong k l es h = ap (λ n. drop n es) h

within-true : (low high n : ℕ) → low ≤ n → n ≤ high → (leb low n && leb n high) ≡ true
within-true low high n h k = ground arith

above-false : (low high n : ℕ) → high < n → (leb low n && leb n high) ≡ false
above-false low high n h = ground arith

below-false : (low high n : ℕ) → n < low → (leb low n && leb n high) ≡ false
below-false low high n h = ground arith

-- The order of two numbers.
order : (m n : ℕ) → (m ≤ n) ⊎ (n < m)
order m n = elim (Bool-cases (leb m n)) [ inl e ↦ inl (ground arith) | inr e ↦ inr (ground arith) ]

module _ (H : Host) where
  between-take :
      (low high n : ℕ) (es : Ledger)
      → IsNumbered n es
      → low ≤ n
      → rows_between low high es ≡ take (suc high - n) es
  unfolding IsNumbered rows_between
  between-take low high n [] h l = sym (take_nil (suc high - n))
  between-take low high n (e ∷ es) h l =
      let rest = between-take low high (suc n) es h.1 (omega arith) in
      let at = sym h.0 in
      elim (order n high) [
        | inl within ↦
            rw (subst (λ m. (leb low m && leb m high) ≡ true) at (within-true low high n l within))
              (ap (λ t. e ∷ t) rest
                ∙ take_cong (suc (suc high - suc n)) (suc high - n) (e ∷ es) (omega arith))
        | inr above ↦
            rw (subst (λ m. (leb low m && leb m high) ≡ false) at (above-false low high n above)) (
              rest
              ∙ take_cong (suc high - suc n) 0 es (omega arith)
              ∙ take_cong 0 (suc high - n) (e ∷ es) (omega arith))
      ]

  between-drop :
      (low high n : ℕ) (es : Ledger)
      → IsNumbered n es
      → n ≤ low
      → rows_between low high es ≡ take (suc high - low) (drop (low - n) es)
  unfolding IsNumbered rows_between
  between-drop low high n [] h l =
      sym (ap (take (suc high - low)) (drop_nil (low - n)) ∙ take_nil (suc high - low))
  between-drop low high n (e ∷ es) h l = elim (order low n) [
    | inl le ↦
        between-take low high n (e ∷ es) h le
        ∙ take_cong (suc high - n) (suc high - low) (e ∷ es) (omega arith)
        ∙ ap (take (suc high - low)) (drop_cong 0 (low - n) (e ∷ es) (omega arith))
    | inr lt ↦
        rw (subst (λ m. (leb low m && leb m high) ≡ false) (sym h.0) (below-false low high n lt)) (
          between-drop low high (suc n) es h.1 (omega arith)
          ∙ ap (take (suc high - low))
              (drop_cong (suc (low - suc n)) (low - n) (e ∷ es) (omega arith)))
  ]

  unfoldable pub advance : LedgerEntry → Walk → Walk
  advance e w = record {
    expected_prev_hash = e.entry_hash;
    entries_checked = w.entries_checked + 1;
    last_checked = some e.sequence_number;
    first_broken = none;
  }

  pub walk-good :
      (e : LedgerEntry) (es : Ledger) (w : Walk)
      → check_entry_integrity H e w.expected_prev_hash ≡ none
      → walk_page H (e ∷ es) w ≡ walk_page H es (advance e w)
  unfolding walk_page advance
  walk-good e es w h = rw (h, walk_page) refl

  pub walk-bad :
      (e : LedgerEntry) (es fs : Ledger) (w : Walk) {r : IntegrityReason}
      → check_entry_integrity H e w.expected_prev_hash ≡ some r
      → (walk_page H (e ∷ es) w ≡ walk_page H (e ∷ fs) w)
        × (is_none (walk_page H (e ∷ es) w).first_broken ≡ false)
        × ((walk_page H (e ∷ es) w).first_broken ≡ some e.sequence_number)
  unfolding walk_page
  walk-bad e es fs w h = (rw (h, walk_page) refl, rw (h, walk_page) refl, rw (h, walk_page) refl)

  walk-append_broken :
      (es fs : Ledger) (w : Walk)
      → is_none (walk_page H es w).first_broken ≡ false
      → is_none w.first_broken ≡ true
      → walk_page H (es ++ fs) w ≡ walk_page H es w
  unfolding walk_page advance
  walk-append_broken [] fs w h k = cc
  walk-append_broken (e ∷ es) fs w h k =
      elim (Option-cases (check_entry_integrity H e w.expected_prev_hash)) [
        | inl good ↦
            walk-good e (es ++ fs) w good
            ∙ walk-append_broken es fs (advance e w)
                (subst (λ v. is_none v.first_broken ≡ false) (walk-good e es w good) h) refl
            ∙ sym (walk-good e es w good)
        | inr (r, bad) ↦ (walk-bad e (es ++ fs) es w bad).0
      ]

  walk-append :
      (es fs : Ledger) (w : Walk)
      → is_none (walk_page H es w).first_broken ≡ true
      → walk_page H (es ++ fs) w ≡ walk_page H fs (walk_page H es w)
  unfolding walk_page
  walk-append [] fs w h = refl
  walk-append (e ∷ es) fs w h =
      elim (Option-cases (check_entry_integrity H e w.expected_prev_hash)) [
        | inl good ↦
            walk-good e (es ++ fs) w good
            ∙ walk-append es fs (advance e w)
                (subst (λ v. is_none v.first_broken ≡ true) (walk-good e es w good) h)
            ∙ ap (walk_page H fs) (sym (walk-good e es w good))
        | inr (r, bad) ↦ let absurd = sym h ∙ (walk-bad e es es w bad).1 in cc
      ]

  -- The rest of the table behind a page.
  drop-page :
      (c u : ℕ) (ledger : Ledger)
      → 1 ≤ c
      → c ≤ u
      → drop (u + 1 - 1) ledger ≡ drop (suc (u - c)) (drop (c - 1) ledger)
  drop-page c u ledger l h =
      drop_cong (u + 1 - 1) ((c - 1) + suc (u - c)) ledger (omega arith)
      ∙ drop-add (c - 1) (suc (u - c)) ledger

  upper-reach : (to : Option ℕ) (c : ℕ) → is_past to c ≡ false → 1 ≤ c → c ≤ upper_bound to c
  upper-reach none c p l = omega arith
  upper-reach (some to) c p l = ground arith

  -- The page that one turn of the loop reads.
  page-take :
      (to : Option ℕ) (c : ℕ) (ledger : Ledger)
      → c ≤ upper_bound to c
      → 1 ≤ c
      → IsNumbered 1 ledger
      → rows_between c (upper_bound to c) ledger
        ≡ take (suc (upper_bound to c - c)) (drop (c - 1) ledger)
  page-take to c ledger h l n =
      between-drop c (upper_bound to c) 1 ledger n l
      ∙ take_cong (suc (upper_bound to c) - c) (suc (upper_bound to c - c)) (drop (c - 1) ledger)
          (omega (arith, h))

  -- The range is that page and the range behind it.
  range-split :
      (to : Option ℕ) (c : ℕ) (ledger : Ledger)
      → c ≤ upper_bound to c
      → 1 ≤ c
      → range to c ledger
        ≡ take (suc (upper_bound to c - c)) (drop (c - 1) ledger)
          ++ range to (upper_bound to c + 1) ledger
  unfolding range
  range-split none c ledger h l =
      let u = upper_bound none c in
      let rest = drop (c - 1) ledger in
      sym (take-drop (suc (u - c)) rest)
      ∙ ap (λ es. take (suc (u - c)) rest ++ es) (sym (drop-page c u ledger l h))
  range-split (some to) c ledger h l =
      let u = upper_bound (some to) c in
      let rest = drop (c - 1) ledger in
      take_cong (suc to - c) (suc (u - c) + (suc to - (u + 1))) rest (omega arith)
      ∙ take-add (suc (u - c)) (suc to - (u + 1)) rest
      ∙ ap (λ es. take (suc (u - c)) rest ++ take (suc to - (u + 1)) es)
          (sym (drop-page c u ledger l h))

  -- Behind the end of the table nothing is left of the range.
  range-past :
      (to : Option ℕ) (c : ℕ) (ledger : Ledger) → length ledger < c → range to c ledger ≡ []
  unfolding range
  range-past none c ledger h = drop-all (c - 1) ledger (omega arith)
  range-past (some to) c ledger h =
      ap (take (suc to - c)) (drop-all (c - 1) ledger (omega arith)) ∙ take_nil (suc to - c)

  range-over :
      (to : Option ℕ) (c : ℕ) (ledger : Ledger) → is_past to c ≡ true → range to c ledger ≡ []
  unfolding range
  range-over none c ledger h = cc
  range-over (some to) c ledger h = take_cong (suc to - c) 0 (drop (c - 1) ledger) (ground arith)

  -- The length of a page that the table fills only in part.
  page-length :
      (c k : ℕ) (ledger : Ledger)
      → 1 ≤ c
      → length (take k (drop (c - 1) ledger)) < k
      → length ledger < c + k
  page-length c k ledger l h =
      omega (arith, length-take k (drop (c - 1) ledger), length-drop (c - 1) ledger)

  page-turn :
      (page more : Ledger) (w next : Walk) (size : ℕ)
      → is_none w.first_broken ≡ true
      → 1 ≤ size
      → (length page < size → more ≡ [])
      → (is_none (walk_page H page w).first_broken ≡ true
          → next ≡ walk_page H more (walk_page H page w))
      → (if is_empty page
          then w
          else (if not (is_none (walk_page H page w).first_broken)
              then walk_page H page w
              else (if ltb (length page) size then walk_page H page w else next)))
        ≡ walk_page H (page ++ more) w
  unfolding walk_page
  page-turn [] more w next size k l short full = rw (short l) refl
  page-turn (e ∷ es) more w next size k l short full =
      elim (Bool-cases (is_none (walk_page H (e ∷ es) w).first_broken)) [
        | inr broken ↦ rw broken (sym (walk-append_broken (e ∷ es) more w broken k))
        | inl whole ↦ rw whole (elim (Bool-cases (ltb (length (e ∷ es)) size)) [
          | inl few ↦ rw few (
              ap (λ fs. walk_page H fs w)
                (sym (append-nil (e ∷ es))
                  ∙ ap (λ fs. (e ∷ es) ++ fs) (sym (short (ground arith)))))
          | inr many ↦ rw many (full whole ∙ sym (walk-append (e ∷ es) more w whole))
        ])
      ]

  -- The walk in pages, with fuel for the rows of the table, is the walk over the range.
  pub verify_pages-walk_page :
      (fuel : ℕ) (to : Option ℕ) (c : ℕ) (ledger : Ledger) (w : Walk)
      → IsNumbered 1 ledger
      → 1 ≤ c
      → length ledger < c + fuel
      → is_none w.first_broken ≡ true
      → verify_pages H fuel ledger to c w ≡ walk_page H (range to c ledger) w
  unfolding verify_pages walk_page
  verify_pages-walk_page zero to c ledger w n l f k = rw (range-past to c ledger (omega arith)) refl
  verify_pages-walk_page (suc fuel) to c ledger w n l f k = elim (Bool-cases (is_past to c)) [
    | inl past ↦ rw (past, range-over to c ledger past) refl
    | inr within ↦
        let u = upper_bound to c in
        let reach = upper-reach to c within l in
        let size = u + 1 - c in
        let page = take (suc (u - c)) (drop (c - 1) ledger) in
        rw (within, page-take to c ledger reach l n)
          (page-turn page (range to (u + 1) ledger) w
              (verify_pages H fuel ledger to (u + 1) (walk_page H page w)) size k (omega arith)
              (λ few.
                range-past to (u + 1) ledger
                  (omega (arith, page-length c (suc (u - c)) ledger l (omega arith))))
              (verify_pages-walk_page fuel to (u + 1) ledger (walk_page H page w) n (omega arith)
                (omega arith))
            ∙ ap (λ es. walk_page H es w) (sym (range-split to c ledger reach l)))
  ]
