-- ===== src/Screen/Redraw.antt =====
-- The parts of `rl_update` of vty.c, against what a terminal shows.
use opencli.Base.{
  ℕ, ◌+◌, ◌-◌, ◌<◌, ◌≤◌, ◌≡◌, ◌≢◌, ◌⊎◌, refl, sym, ◌∙◌, true, not, ◌||◌, [], ◌∷◌, ◌++◌, ◌==◌, ltb,
  Bytes, arith, Bool-cases, inl, inr, get_or, length, replicate, IsText,
}
use Prim.Native.Nat.{min}
use opencli.Screen.{bs, rl_movecursor, redraw_tail, update_bytes}
use opencli.Screen.Terminal.{
  Terminal, receive_all, receive_all-append, Plain, movecursor-Wrote, blanks-Wrote,
}
use opencli.Screen.Scan.{
  common, differs, first_diff-common, shorter_end-drop, nul_at-drop, common-le, common-agree,
  common_no_diff, get_or_text, get_or_nul, get_or_past, get_or-ne_zero,
}

-- Blanks follow the text.
abbrev pub shown : Bytes → ℕ → ℕ
shown s j = get_or s j b' '

pub record Shows (t : Terminal) (s : Bytes) (at : ℕ) : Type 0 where
  pub column : t.column ≡ at
  pub cells : (j : ℕ) → t.cell j ≡ shown s j

-- Before or from a place on.
side : (a b : ℕ) → (a < b) ⊎ (b ≤ a)
side a b = elim (Bool-cases (ltb a b)) [ inl e ↦ inl (ground arith) | inr e ↦ inr (ground arith) ]

module _ (new jn : Bytes) (plain : (j : ℕ) → j < length new → get_or (new ++ 0 ∷ jn) j 0 ≢ bs) where
  Plain-to : (lo hi : ℕ) → hi ≤ length new → Plain (new ++ 0 ∷ jn) lo hi
  Plain-to lo hi h j a b = plain j (omega arith)

  -- The last movement. It may write what was not yet right.
  finish :
      (from at : ℕ) (t : Terminal)
      → t.column ≡ from
      → at ≤ length new
      → ((j : ℕ) → (j < from) ⊎ (at ≤ j) → t.cell j ≡ shown new j)
      → Shows (receive_all t (rl_movecursor (new ++ 0 ∷ jn) at from).1) new at
  finish from at t e le ok =
      let (a, w) = movecursor-Wrote (new ++ 0 ∷ jn) at from t e (Plain-to from at le) in
      record {
        column = w.column;
        cells = λ j. elim (side j from) [
          | inl before ↦ w.outside j (inl before) ∙ ok j (inl before)
          | inr on ↦ elim (side j at) [
            | inl lt ↦ w.inside j on lt ∙ get_or_text new jn j b' ' (omega arith)
            | inr ge ↦ w.outside j (inr ge) ∙ ok j (inr ge)
          ]
        ];
      }

  module _ (old jo : Bytes) (tn : IsText new) (to : IsText old) where
    tail_test :
        (e : ℕ)
        → e ≡ min (length new) (length old)
        → length new ≢ length old
        → (not (get_or (new ++ 0 ∷ jn) e 0 == 0) || not (get_or (old ++ 0 ∷ jo) e 0 == 0)) ≡ true
    tail_test e is ne = elim (side (length new) (length old)) [
      | inl lt ↦
          let at_old : get_or (old ++ 0 ∷ jo) e 0 ≢ 0 = get_or-ne_zero old jo e to (omega arith) in
          ground arith
      | inr ge ↦
          let at_new : get_or (new ++ 0 ∷ jn) e 0 ≢ 0 = get_or-ne_zero new jn e tn (omega arith) in
          ground arith
    ]

    -- Where the lengths differ, the rest of the new line is written, and blanks over what the old
    -- line has beyond it.
    tail_Shows :
        (e from : ℕ) (t : Terminal)
        → e ≡ min (length new) (length old)
        → length new ≢ length old
        → t.column ≡ from
        → from ≤ length new
        → ((j : ℕ) → j < from → t.cell j ≡ shown new j)
        → ((j : ℕ) → from ≤ j → length old ≤ j → t.cell j ≡ b' ')
        → let r = redraw_tail (new ++ 0 ∷ jn) (old ++ 0 ∷ jo) e from in
          Shows (receive_all t r.1) new r.0
    unfolding redraw_tail
    tail_Shows e from t is ne col le front back =
        let ln = length new in
        let blanks = length old - e in
        let (a, w) =
          movecursor-Wrote (new ++ 0 ∷ jn) ln from t col (Plain-to from ln (omega arith)) in
        let u = receive_all t (rl_movecursor (new ++ 0 ∷ jn) ln from).1 in
        let x = blanks-Wrote blanks ln (ln + blanks) u refl w.column in
        rw
          (
            tail_test e is ne,
            nul_at-drop new jn e tn (omega arith),
            nul_at-drop old jo e to (omega arith),
            a,
            receive_all-append t (rl_movecursor (new ++ 0 ∷ jn) ln from).1 (replicate blanks b' '),
          )
          (record {
            column = x.column;
            cells = λ j. elim (side j ln) [
              | inl lt ↦ x.outside j (inl lt) ∙ elim (side j from) [
                | inl before ↦ w.outside j (inl before) ∙ front j before
                | inr on ↦ w.inside j on lt ∙ get_or_text new jn j b' ' lt
              ]
              | inr ge ↦ elim (side j (ln + blanks)) [
                | inl within ↦ x.inside j ge within ∙ sym (get_or_past new j b' ' ge)
                | inr past ↦
                    x.outside j (inr past)
                    ∙ w.outside j (inr ge)
                    ∙ back j (omega arith) (omega arith)
                    ∙ sym (get_or_past new j b' ' ge)
              ]
            ];
          })

    tail_same :
        (e from : ℕ)
        → e ≡ length new
        → length new ≡ length old
        → redraw_tail (new ++ 0 ∷ jn) (old ++ 0 ∷ jo) e from ≡ (from, [])
    unfolding redraw_tail
    tail_same e from is same = rw (is, get_or_nul new jn) (rw same (rw (get_or_nul old jo)))

    -- The three parts together, for a first movement to `tgt`: the cells before it are right or
    -- are passed on the way.
    parts_Shows :
        (e tgt from at : ℕ) (t : Terminal)
        → e ≡ min (length new) (length old)
        → t.column ≡ from
        → tgt ≤ length new
        → at ≤ length new
        → ((j : ℕ) → j < tgt → j < from → t.cell j ≡ shown new j)
        → (length new ≢ length old) × ((j : ℕ) → tgt ≤ j → length old ≤ j → t.cell j ≡ b' ')
          ⊎ (length new ≡ length old) × ((j : ℕ) → at ≤ j → tgt ≤ j → t.cell j ≡ shown new j)
        → let m = rl_movecursor (new ++ 0 ∷ jn) tgt from in
          let r = redraw_tail (new ++ 0 ∷ jn) (old ++ 0 ∷ jo) e m.0 in
          let n = rl_movecursor (new ++ 0 ∷ jn) at r.0 in
          Shows (receive_all t (m.1 ++ (r.1 ++ n.1))) new at
    parts_Shows e tgt from at t is col le le' front rest =
        let m = rl_movecursor (new ++ 0 ∷ jn) tgt from in
        let u = receive_all t m.1 in
        let (a, w) = movecursor-Wrote (new ++ 0 ∷ jn) tgt from t col (Plain-to from tgt le) in
        let passed : (j : ℕ) → j < tgt → u.cell j ≡ shown new j = λ j lt. elim (side j from) [
          | inl before ↦ w.outside j (inl before) ∙ front j lt before
          | inr on ↦ w.inside j on lt ∙ get_or_text new jn j b' ' (omega arith)
        ] in
        rw (receive_all-append t m.1) (elim rest [
          | inl (ne, back) ↦
              let s =
                tail_Shows e m.0 u is ne (w.column ∙ sym a) (omega (arith, a))
                  (λ j lt. passed j (omega (arith, a)))
                  (λ j ge past.
                    w.outside j (inr (omega (arith, a))) ∙ back j (omega (arith, a)) past) in
              rw (receive_all-append u (redraw_tail (new ++ 0 ∷ jn) (old ++ 0 ∷ jo) e m.0).1) (
                finish (redraw_tail (new ++ 0 ∷ jn) (old ++ 0 ∷ jo) e m.0).0 at _ s.column le'
                  (λ j _. s.cells j))
          | inr (same, back) ↦ rw (tail_same e m.0 (omega arith) same) (
              finish m.0 at u (w.column ∙ sym a) le' (λ j k. elim (side j tgt) [
                | inl lt ↦ passed j lt
                | inr ge ↦ elim k [
                  | inl lt ↦ absurd (omega (arith, a))
                  | inr ge' ↦ w.outside j (inr ge) ∙ back j ge' ge
                ]
              ]))
        ])

    -- The new line can be told from the old one by `rl_update`: by its length, or by nothing that
    -- stands behind the cursor.
    abbrev pub Redrawable : ℕ → Type 0
    Redrawable at = (length new ≢ length old) ⊎ ((j : ℕ) → at ≤ j → shown new j ≡ shown old j)

    pub update_bytes-Shows :
        (at from : ℕ) (t : Terminal)
        → Redrawable at
        → at ≤ length new
        → from ≤ length old
        → Shows t old from
        → Shows (receive_all t (update_bytes (new ++ 0 ∷ jn) (old ++ 0 ∷ jo) at from)) new at
    unfolding update_bytes
    update_bytes-Shows at from t able le le' s =
        let k = common new old in
        let bounds = common-le new old in
        let e = min (length new) (length old) in
        let beyond : (j : ℕ) → length old ≤ j → t.cell j ≡ b' ' =
          λ j past. s.cells j ∙ get_or_past old j b' ' past in
        let agreed : (j : ℕ) → j < k → t.cell j ≡ shown new j =
          λ j lt. s.cells j ∙ sym (common-agree new old j lt) in
        rw
          (
            first_diff-common new old jn jo 0 tn to,
            shorter_end-drop new old jn jo (0 + k) tn to (omega arith) (omega arith),
          )
          (elim (Bool-cases (differs new old)) [
            | inl d ↦ rw d (
                parts_Shows e (0 + k) from at t refl s.column (omega arith) le
                  (λ j lt _. agreed j (omega arith))
                  (elim (Bool-cases (length new == length old)) [
                    | inl same ↦ elim able [
                      | inl ne ↦ absurd (ground arith)
                      | inr agree ↦ inr (ground arith, λ j ge _. s.cells j ∙ sym (agree j ge))
                    ]
                    | inr ne ↦ inl (ground arith, λ j _ past. beyond j past)
                  ]))
            | inr d ↦ rw d (
                let full = common_no_diff new old d in
                parts_Shows e at from at t refl s.column le le
                  (λ j lt lt'. agreed j (omega (arith, full)))
                  (elim (Bool-cases (length new == length old)) [
                    | inl same ↦
                        let sizes : length new ≡ length old = ground arith in
                        inr (
                          sizes,
                          λ j _ _. elim (side j k) [
                            | inl lt ↦ agreed j lt
                            | inr past ↦
                                beyond j (omega (arith, full))
                                ∙ sym (get_or_past new j b' ' (omega (arith, full)))
                          ],
                        )
                    | inr ne ↦ inl (ground arith, λ j _ past. beyond j past)
                  ]))
          ])
