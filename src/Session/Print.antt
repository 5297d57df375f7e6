-- ===== src/Session/Print.antt =====
-- `cmd_print_matched` of vty.c, against the candidates of a word.
use opencli.Base.{
  ℕ, zero, suc, ◌-◌, ◌≡◌, refl, Bool, true, false, not, ◌||◌, List, [], ◌∷◌, ◌++◌, arith, ◌==◌, ltb,
  if◌then◌else◌, Bool-cases, inl, inr, Bytes, codes, take,
}
use opencli.Command.{is_completion}
use opencli.Command.Find.{candidates}
use opencli.Command.Table.{CmdId, spec}
use opencli.Session.{print_matched, count_matched, cmd_print_matched}

-- A name, cut to 15 bytes, and a tabulator, for each command.
abbrev pub tabbed : List CmdId → Bytes
tabbed [] = []
tabbed (n ∷ lst) = take 15 (spec n).cmda ++ (codes "\t" ++ tabbed lst)

abbrev pub is_nil : List CmdId → Bool
is_nil [] = true
is_nil (n ∷ lst) = false

positive : (k : ℕ) → (suc k == 0) ≡ false
positive k = ground arith

-- `p_count` is never 0 where it is tested.
next_count : (k : ℕ) → (j : ℕ) × ((if suc k - 1 == 0 then 5 else suc k - 1) ≡ suc j)
next_count zero = (4, refl)
next_count (suc k) = (k, ground arith)

matched-tabbed :
    (privilege : ℕ) (cmd : Bytes) (k : ℕ) (lst : List CmdId)
    → print_matched privilege cmd (suc k) lst ≡ tabbed (candidates spec privilege cmd lst)
unfolding print_matched
matched-tabbed privilege cmd k [] = refl
matched-tabbed privilege cmd k (n ∷ lst) =
    let skips = ltb privilege (spec n).privilege || not (is_completion cmd (spec n).cmda) in
    elim (Bool-cases skips) [
      | inl e ↦ rw e (matched-tabbed privilege cmd k lst)
      | inr e ↦
          let (j, next) = next_count k in
          rw (e, positive k, next, matched-tabbed privilege cmd j lst)
    ]

count_zero :
    (privilege : ℕ) (cmd : Bytes) (lst : List CmdId)
    → (count_matched privilege cmd lst == 0) ≡ is_nil (candidates spec privilege cmd lst)
unfolding count_matched
count_zero privilege cmd [] = refl
count_zero privilege cmd (n ∷ lst) =
    let skips = ltb privilege (spec n).privilege || not (is_completion cmd (spec n).cmda) in
    elim (Bool-cases skips) [
      | inl e ↦ rw e (count_zero privilege cmd lst)
      | inr e ↦ rw e (ground arith)
    ]

-- The list for a word: the names of its candidates, each cut to 15 bytes and with a tabulator behind
-- it, all in one line, or a message where there are none.
pub cmd_print_matched-candidates :
    (privilege : ℕ) (cmd : Bytes) (lst : List CmdId)
    → cmd_print_matched privilege cmd lst ≡ (
        let found = candidates spec privilege cmd lst in
        tabbed found
        ++ ((if is_nil found then codes "% Unrecognized command." else []) ++ codes "\r\n"))
unfolding cmd_print_matched
cmd_print_matched-candidates privilege cmd lst =
    rw (matched-tabbed privilege cmd 4 lst, count_zero privilege cmd lst)
