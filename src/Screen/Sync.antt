-- ===== src/Screen/Sync.antt =====
-- `rl_update` of vty.c, against the client's terminal and `old_buff`.
use opencli.Base.{
  ℕ, zero, suc, ◌+◌, ◌-◌, ◌*◌, ◌<◌, ◌≤◌, ◌≡◌, ◌≢◌, ◌⊎◌, refl, ◌∙◌, ◌∷◌, ◌++◌, Bytes, arith,
  Bool-cases, inl, inr, get_or, drop, length, length-append, length-replicate, replicate, IsText,
}
use Prim.Native.Nat.{min, max}
use opencli.Line.{Line, max_cmdline}
use opencli.Line.Zipper.{
  Zipper, text, reverse_onto-append, reverse_onto-IsText, length-reverse_onto, Holds, Holds-cstr,
}
use opencli.Line.Erase.{Holds-junk}
use opencli.Screen.{
  bs, cursor_back, cursor_on, rl_movecursor, redraw_tail, update_bytes, rl_update, strcpy,
  max_wbuffer,
}
use opencli.Screen.Terminal.{Terminal, receive_all}
use opencli.Screen.Scan.{
  get_or_text, common, differs, common-le, first_diff-common, shorter_end-drop, nul_at-drop,
}
use opencli.Screen.Redraw.{Shows, shown, update_bytes-Shows}

-- `old_buff` and `old_ptr` say what the terminal shows.
pub record InSync (v : Line) (t : Terminal) (s : Bytes) : Type 0 where
  pub junk : Bytes
  pub holds : v.old_buff ≡ s ++ 0 ∷ junk
  pub is_text : IsText s
  pub inside : v.old_ptr ≤ length s
  pub fits : length s < max_cmdline
  pub shows : Shows t s v.old_ptr

-- A backspace in the line would move the terminal's cursor.
abbrev pub IsPlain : Bytes → Type 0
IsPlain s = (j : ℕ) → j < length s → get_or s j 0 ≢ bs

plain_buffer : (s j : Bytes) → IsPlain s → (i : ℕ) → i < length s → get_or (s ++ 0 ∷ j) i 0 ≢ bs
plain_buffer s j h i lt = rw (get_or_text s j i 0 lt) (h i lt)

module _ {v : Line} {z : Zipper} (h : Holds v z) where
  laid : v.rl_buff ≡ text z ++ 0 ∷ h.junk
  laid = h.layout ∙ reverse_onto-append z.before z.after (0 ∷ h.junk)

  text-IsText : IsText (text z)
  text-IsText = reverse_onto-IsText z.before z.after h.text_before h.text_after

  pub rl_ptr-le : v.rl_ptr ≤ length (text z)
  rl_ptr-le = omega (arith, h.cursor, length-reverse_onto z.before z.after)

  -- For a line without backspaces that differs from the shown one in length, or from the cursor on
  -- in nothing: after `rl_update` the terminal shows the line with the cursor at its place, and the
  -- state knows it.
  pub rl_update-InSync :
      {t : Terminal} {s : Bytes}
      → InSync v t s
      → IsPlain (text z)
      → (length (text z) ≢ length s) ⊎ ((j : ℕ) → v.rl_ptr ≤ j → shown (text z) j ≡ shown s j)
      → InSync (rl_update v).0 (receive_all t (rl_update v).1) (text z) × Holds (rl_update v).0 z
  unfolding rl_update strcpy
  rl_update-InSync {t} {s} sync plain able =
      let drawn =
        update_bytes-Shows (text z) h.junk (plain_buffer (text z) h.junk plain) s sync.junk
          text-IsText sync.is_text v.rl_ptr v.old_ptr t able rl_ptr-le sync.inside sync.shows in
      (
        record {
          junk = drop (length (text z) + 1) v.old_buff;
          holds = rw (Holds-cstr h);
          is_text = text-IsText;
          inside = rl_ptr-le;
          fits = omega (arith, Holds-junk h, length-reverse_onto z.before z.after);
          shows = rw (laid, sync.holds) drawn;
        },
        record {
          junk = h.junk;
          layout = h.layout;
          size = h.size;
          cursor = h.cursor;
          count = h.count;
          text_before = h.text_before;
          text_after = h.text_after;
        },
      )

back_length : (to from : ℕ) → length (cursor_back to from).1 ≤ from
unfolding cursor_back
back_length to zero = omega arith
back_length to (suc from) = ground (arith, back_length to from)

back_place : (to from : ℕ) → (cursor_back to from).0 ≡ min to from
unfolding cursor_back
back_place to zero = omega arith
back_place to (suc from) = ground (arith, back_place to from)

on_length :
    (buf : Bytes) (k from : ℕ)
    → (length (cursor_on buf k from).1 ≡ k) × ((cursor_on buf k from).0 ≡ from + k)
unfolding cursor_on
on_length buf zero from = omega arith
on_length buf (suc k) from = omega (arith, on_length buf k (from + 1))

movecursor_length :
    (buf : Bytes) (to from : ℕ)
    → (length (rl_movecursor buf to from).1 ≤ from + to) × ((rl_movecursor buf to from).0 ≡ to)
unfolding rl_movecursor
movecursor_length buf to from =
    let b = cursor_back to from in
    let o = cursor_on buf (to - b.0) b.0 in
    ground (
      arith,
      back_length to from,
      back_place to from,
      on_length buf (to - b.0) b.0,
      length-append b.1 o.1,
    )

tail_length :
    (new jn old jo : Bytes) (e from : ℕ)
    → IsText new
    → IsText old
    → e ≡ min (length new) (length old)
    → from ≤ length new
    → let r = redraw_tail (new ++ 0 ∷ jn) (old ++ 0 ∷ jo) e from in
      (length r.1 ≤ from + length new + length old) × (r.0 ≤ length new + (length old - e))
unfolding redraw_tail
tail_length new jn old jo e from tn to is le =
    let ln = length new in
    let m = rl_movecursor (new ++ 0 ∷ jn) ln from in
    rw (nul_at-drop new jn e tn (omega arith), nul_at-drop old jo e to (omega arith))
      (ground (
        arith,
        movecursor_length (new ++ 0 ∷ jn) ln from,
        length-append m.1 (replicate (length old - e) b' '),
        length-replicate {A = ℕ} (length old - e) b' ',
      ))

update_length :
    (new jn old jo : Bytes) (at from : ℕ)
    → IsText new
    → IsText old
    → at ≤ length new
    → from ≤ length old
    → length (update_bytes (new ++ 0 ∷ jn) (old ++ 0 ∷ jo) at from)
      ≤ 4 * length new + 2 * length old + max (length new) (length old)
unfolding update_bytes
update_length new jn old jo at from tn to le le' =
    let k = common new old in
    let bounds = common-le new old in
    let e = min (length new) (length old) in
    let nb = new ++ 0 ∷ jn in
    let ob = old ++ 0 ∷ jo in
    let parts : (tgt : ℕ)
        → tgt ≤ length new
        → length (
            (rl_movecursor nb tgt from).1
            ++ ((redraw_tail nb ob e (rl_movecursor nb tgt from).0).1
                ++ (rl_movecursor nb at (redraw_tail nb ob e (rl_movecursor nb tgt from).0).0).1))
          ≤ 4 * length new + 2 * length old + max (length new) (length old) =
      λ tgt lt.
        let m = rl_movecursor nb tgt from in
        let r = redraw_tail nb ob e m.0 in
        let n = rl_movecursor nb at r.0 in
        omega (
          arith,
          movecursor_length nb tgt from,
          tail_length new jn old jo e m.0 tn to refl (omega (arith, movecursor_length nb tgt from)),
          movecursor_length nb at r.0,
          length-append m.1 (r.1 ++ n.1),
          length-append r.1 n.1,
        ) in
    rw
      (
        first_diff-common new old jn jo 0 tn to,
        shorter_end-drop new old jn jo (0 + k) tn to (omega arith) (omega arith),
      )
      (elim (Bool-cases (differs new old)) [
        | inl d ↦ rw d (parts (0 + k) (omega arith))
        | inr d ↦ rw d (parts at le)
      ])

-- All that `rl_update` writes to `w_buff` fits, when `old_buff` is what the terminal shows.
pub rl_update_fits :
    {v : Line} {z : Zipper} {t : Terminal} {s : Bytes}
    → Holds v z
    → InSync v t s
    → length (rl_update v).1 ≤ max_wbuffer
unfolding rl_update
rl_update_fits {v} {z} {t} {s} h sync =
    rw (laid h, sync.holds)
      (let bound =
          update_length (text z) h.junk s sync.junk v.rl_ptr v.old_ptr (text-IsText h) sync.is_text
            (rl_ptr-le h) sync.inside in
        omega (arith, bound, sync.fits, Holds-junk h, length-reverse_onto z.before z.after))
