-- ===== src/Runtime/Outputs/Equality.antt =====
-- `==` on configurations (src/runtime/mod.rs) finds equal those that are.
use text.Mathlib.TextEquality.{path_by_compare}
use eventline.Prelude.{
  ℕ, ◌≡◌, refl, sym, ap, ◌∙◌, String, Bool, true, false, Option, none, some, ◌==◌, ◌&&◌, arith,
}
use eventline.Load.{same_string, same_string_refl, same_option}
use eventline.Writer.Background.{WriteMode}
use eventline.Runtime.Levels.{LogLevel, FileFormat, Config, as_u8, from_u8, from_u8-as_u8}
use eventline.Runtime.Outputs.{same_bool, same_config, same_file, is_jsonl, is_blocking}

same_bool_refl : (b : Bool) → same_bool b b ≡ true
unfolding same_bool
same_bool_refl true = refl
same_bool_refl false = refl

same_path_refl : (p : Option String) → same_option same_string p p ≡ true
same_path_refl none = refl
same_path_refl (some s) = same_string_refl s

same_count_refl : (n : Option ℕ) → same_option ◌==◌ n n ≡ true
same_count_refl none = refl
same_count_refl (some n) = ground arith

==_refl : (n : ℕ) → (n == n) ≡ true
==_refl n = ground arith

pub same_config_refl : (cfg : Config) → same_config cfg cfg ≡ true
unfolding same_config same_file
same_config_refl cfg = simp (
  same_bool_refl,
  ==_refl,
  same_path_refl cfg.file_path,
  same_count_refl cfg.file_policy_max_bytes,
  same_count_refl cfg.file_policy_keep_backups,
)

both : (a b : Bool) → a && b ≡ true → (a ≡ true) × (b ≡ true)
both a b e = ground arith

same_bool-eq : (a b : Bool) → same_bool a b ≡ true → a ≡ b
unfolding same_bool
same_bool-eq a b e = ground arith

same_number-eq : (a b : ℕ) → (a == b) ≡ true → a ≡ b
same_number-eq a b e = ground arith

same_level-eq : (a b : LogLevel) → (as_u8 a == as_u8 b) ≡ true → a ≡ b
unfolding as_u8
same_level-eq a b e =
    sym (from_u8-as_u8 a) ∙ ap from_u8 (same_number-eq (as_u8 a) (as_u8 b) e) ∙ from_u8-as_u8 b

same_format-eq : (a b : FileFormat) → same_bool (is_jsonl a) (is_jsonl b) ≡ true → a ≡ b
unfolding same_bool is_jsonl
same_format-eq a b e = ground arith

same_mode-eq : (a b : WriteMode) → same_bool (is_blocking a) (is_blocking b) ≡ true → a ≡ b
unfolding same_bool is_blocking
same_mode-eq a b e = ground arith

same_path-eq : (a b : Option String) → same_option same_string a b ≡ true → a ≡ b
same_path-eq none none e = refl
same_path-eq none (some t) e = cc
same_path-eq (some s) none e = cc
same_path-eq (some s) (some t) e = ap some (path_by_compare s t (ground (arith, e)))

same_count-eq : (a b : Option ℕ) → same_option ◌==◌ a b ≡ true → a ≡ b
same_count-eq a b e = ground arith

-- Configurations that are found equal are.
pub same_config-eq : (a b : Config) → same_config a b ≡ true → a ≡ b
unfolding same_config same_file
same_config-eq a b e =
    let (e1, r1) = both (same_bool a.console_enabled b.console_enabled) _ e in
    let (e2, r2) = both (as_u8 a.console_level == as_u8 b.console_level) _ r1 in
    let (e3, r3) = both (same_bool a.console_color b.console_color) _ r2 in
    let (e4, r4) = both (same_bool a.console_show_scope b.console_show_scope) _ r3 in
    let (e5, r5) = both (same_bool a.console_show_scope_exit b.console_show_scope_exit) _ r4 in
    let (e6, r6) = both (same_bool a.console_duration b.console_duration) _ r5 in
    let (e7, r7) = both (same_bool a.console_timestamp b.console_timestamp) _ r6 in
    let (e8, r8) = both (same_bool a.file_enabled b.file_enabled) _ r7 in
    let (e9, r9) = both (as_u8 a.file_level == as_u8 b.file_level) _ r8 in
    let (e10, r10) = both (same_option same_string a.file_path b.file_path) _ r9 in
    let (e11, r11) = both (same_bool (is_jsonl a.file_format) (is_jsonl b.file_format)) _ r10 in
    let (e12, r12) =
      both (same_option ◌==◌ a.file_policy_max_bytes b.file_policy_max_bytes) _ r11 in
    let (e13, r13) =
      both (same_option ◌==◌ a.file_policy_keep_backups b.file_policy_keep_backups) _ r12 in
    let (e14, e15) = both (a.max_journal_records == b.max_journal_records) _ r13 in
    λ i. record {
      console_enabled = same_bool-eq a.console_enabled b.console_enabled e1 i;
      console_level = same_level-eq a.console_level b.console_level e2 i;
      console_color = same_bool-eq a.console_color b.console_color e3 i;
      console_show_scope = same_bool-eq a.console_show_scope b.console_show_scope e4 i;
      console_show_scope_exit =
          same_bool-eq a.console_show_scope_exit b.console_show_scope_exit e5 i;
      console_duration = same_bool-eq a.console_duration b.console_duration e6 i;
      console_timestamp = same_bool-eq a.console_timestamp b.console_timestamp e7 i;
      file_enabled = same_bool-eq a.file_enabled b.file_enabled e8 i;
      file_level = same_level-eq a.file_level b.file_level e9 i;
      file_path = same_path-eq a.file_path b.file_path e10 i;
      file_format = same_format-eq a.file_format b.file_format e11 i;
      file_policy_max_bytes = same_count-eq a.file_policy_max_bytes b.file_policy_max_bytes e12 i;
      file_policy_keep_backups =
          same_count-eq a.file_policy_keep_backups b.file_policy_keep_backups e13 i;
      max_journal_records = same_number-eq a.max_journal_records b.max_journal_records e14 i;
      writer_mode = same_mode-eq a.writer_mode b.writer_mode e15 i;
    }
