-- ===== src/Logs/Merged/Tests.antt =====
-- Logs of two modules.
use web_zapret.Base.{
  ◌≡◌, ◌⊎◌, refl, List, [], ◌∷◌, ◌++◌, map, true, false, if◌then◌else◌, sort_onto, pos, subst,
  Bool-cases, inl, inr, Consecutive, leb, ◌&&◌,
}
use mathlib.Core.List.{Perm}
use web_zapret.Text.{Text, codes, same, text_methods}
use web_zapret.Text.Laws.{same_iff}
use web_zapret.Logs.{drop, last_rows, last_lines, splitlines}
use web_zapret.Logs.Merged.{
  Reader, Files, Entry, absent, contents, is_source, log_modules, tail_log, merged_log,
  collected_entries, read_file_lines, size_limit,
}
use web_zapret.Logs.Merged.Entries.{IsInFront, AreCollected}
use web_zapret.Logs.Merged.Tail.{IsShown, IsOneLog}
use web_zapret.Logs.Merged.Read.{tail_log_isolated, collected_entries-IsOrdered, tail_log-length}

-- A text of ASCII characters is its bytes.
abbrev ascii : Reader
ascii = record { decode = λ bytes. bytes; is_decimal = λ c. leb b'0' c && leb c b'9' }

abbrev logs : Files
logs name =
    if same name (codes "panel")
    then contents (codes "[2026-01-01T00:00:02Z] b" ++ 10 ∷ codes "c")
    else if same name (codes "bcw")
    then contents (codes "[2026-01-01T00:00:01Z] a")
    else absent

-- The same logs, and a file outside of the directory.
abbrev other_logs : Files
other_logs name = if same name (codes "../secret") then contents (codes "secret") else logs name

merged_test :
    tail_log ascii logs (codes "all") (pos 2)
    ≡ codes "[panel] [2026-01-01T00:00:02Z] b" ++ 10 ∷ codes "[panel] c" ++ 10 ∷ []
unfolding tail_log merged_log collected_entries sort_onto text_methods is_source drop last_rows
    last_lines splitlines
merged_test = refl

traversal_test : tail_log ascii other_logs (codes "../secret") (pos 2) ≡ codes "(bad log source)"
unfolding tail_log is_source
traversal_test = refl

tail_log-length_example :
    ((codes "all" ≡ codes "all")
      × IsShown
          (codes "(no log entries available across modules)" ++ 10 ∷ [])
          (pos 2)
          (map (λ (e : Entry). e.text) (collected_entries ascii logs size_limit))
          (tail_log ascii logs (codes "all") (pos 2)))
    ⊎ (¬ (codes "all" ≡ codes "all")
        × IsOneLog
            (codes "all")
            (pos 2)
            (read_file_lines ascii (logs (codes "all")) 262144)
            (tail_log ascii logs (codes "all") (pos 2)))
unfolding is_source
tail_log-length_example = tail_log-length ascii logs (codes "all") (pos 2) refl

outside_not_source : (name : Text) → is_source name ≡ true → same name (codes "../secret") ≡ false
unfolding is_source
outside_not_source name safe = elim (Bool-cases (same name (codes "../secret"))) [
  | inl e ↦
      let traversal : is_source (codes "../secret") ≡ true =
        subst (λ t. is_source t ≡ true) ((same_iff name (codes "../secret")).0 e) safe in
      cc
  | inr e ↦ e
]

tail_log_isolated_example :
    tail_log ascii logs (codes "panel") (pos 2) ≡ tail_log ascii other_logs (codes "panel") (pos 2)
tail_log_isolated_example =
    tail_log_isolated ascii logs other_logs (codes "panel") (pos 2)
      (λ name safe. rw (outside_not_source name safe) refl)

collected_entries-IsOrdered_example :
    Consecutive IsInFront (collected_entries ascii logs (λ _. 100))
    × (rows : List Entry) × AreCollected ascii logs (λ _. 100) 0 log_modules rows
    × Perm rows (collected_entries ascii logs (λ _. 100))
collected_entries-IsOrdered_example = collected_entries-IsOrdered ascii logs (λ _. 100)
