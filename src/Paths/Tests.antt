-- ===== src/Paths/Tests.antt =====
-- Runs of the rules, and the theorems at concrete names.
use p_drive.Base.{
  Text, codes, [], ◌∷◌, true, false, ◌≡◌, refl, arith, text_eq, has_byte, has_prefix, has_suffix,
  split_on, cut_last, trim_left, trim_right, slash,
}
use p_drive.SafePath.{ok, sanitize_path}
use p_drive.Paths.{ignored, excluded, valid_path, conflict_name}
use p_drive.Paths.Laws.{valid_path-sanitize_path}

abbrev stamp : Text
stamp = codes "2026-01-02 03-04-05"

abbrev report : Text
report = codes "a/report.pdf"

swap_file_ignored : ignored (codes "x.swp") ≡ true
unfolding ignored text_eq has_suffix
swap_file_ignored = refl

report_kept : ignored (codes "report.pdf") ≡ false
unfolding ignored text_eq has_prefix has_suffix
report_kept = refl

report_copy :
    conflict_name report stamp (codes "pc") ≡ codes "a/report (conflict 2026-01-02 03-04-05 pc).pdf"
unfolding conflict_name cut_last
report_copy = refl

no_host_copy :
    conflict_name (codes ".rc") stamp [] ≡ codes ".rc (conflict 2026-01-02 03-04-05 unknown-host)"
unfolding conflict_name cut_last
no_host_copy = refl

report_valid : valid_path report ≡ true
unfolding valid_path has_prefix split_on text_eq has_byte has_suffix
report_valid = refl

trailing_slash : excluded (codes "/a/b/" ∷ []) (codes "a/b/c") ≡ true
unfolding excluded trim_left trim_right has_prefix text_eq
trailing_slash = refl

excluded_dir : excluded (codes "a/b" ∷ []) (codes "a/b") ≡ true
unfolding excluded trim_left trim_right text_eq
excluded_dir = refl

valid_path-sanitize_path_example : sanitize_path report ≡ ok (split_on slash report)
unfolding split_on
valid_path-sanitize_path_example = valid_path-sanitize_path report report_valid (omega arith)
