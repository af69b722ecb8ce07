-- ===== src/RestoreReconcile/Redaction.antt =====
-- `RedactedEvidence` of internal/restorereconcile/reconcile.go.
use agentsmith_fs_control_pl.Prelude.{
  Bool, List, Option, [], false, if◌then◌else◌, is_some, leb, length, map, none, some, suc, zero, ℕ,
  ◌&&◌, ◌++◌, ◌+◌, ◌-◌, ◌==◌, ◌||◌, ◌∷◌,
}
use agentsmith_fs_control_pl.RestoreReconcile.{Observation}
use agentsmith_fs_control_pl.Text.{Text, bytes, cut_prefix, trim_space}
use agentsmith_fs_control_pl.Text.Runes.{runes}

pub record Evidence : Type 0 where
  pub run_id : Text
  pub repo_id : Text
  pub observed_generation : Text
  pub evidence_ref : Text

-- `unicode.ToLower`, on the runes whose lower case is an ASCII character; the others are left as
-- they are, since they are only compared with ASCII characters. U+212A is the Kelvin sign, U+0130
-- the dotted capital I.
abbrev pub lower_rune : ℕ → ℕ
lower_rune r =
    if leb b'A' r && leb r b'Z'
    then r + 32
    else if r == 0x212a
    then b'k'
    else if r == 0x130
    then b'i'
    else r

-- `strings.Contains(s, part)` for a part that is not empty, on runes.
unfoldable pub contains : List ℕ → List ℕ → Bool
contains part [] = false
contains part (r ∷ rs) = is_some (cut_prefix part (r ∷ rs)) || contains part rs

abbrev pub forbidden_parts : List Text
forbidden_parts =
    bytes "/raw/root"
    ∷ bytes ".jvs"
    ∷ bytes "metadata_url"
    ∷ bytes "secretref"
    ∷ bytes "token"
    ∷ bytes "password"
    ∷ bytes "credential"
    ∷ []

unfoldable pub contains_any : List Text → List ℕ → Bool
contains_any [] rs = false
contains_any (part ∷ parts) rs = contains part rs || contains_any parts rs

unfoldable pub contains_sensitive_material : Text → Bool
contains_sensitive_material value = contains_any forbidden_parts (map lower_rune (runes value))

-- `strings.ReplaceAll`: the bytes of a replaced part are skipped.
unfoldable pub replace_after : ℕ → Text → Text → Text → Text
replace_after skip old new [] = []
replace_after (suc skip) old new (b ∷ s) = replace_after skip old new s
replace_after zero old new (b ∷ s) =
    let replaced = new ++ replace_after (length old - 1) old new s in
    let kept = b ∷ replace_after 0 old new s in
    if is_some (cut_prefix old (b ∷ s)) then replaced else kept

abbrev pub replace_all : Text → Text → Text → Text
replace_all old new s = replace_after 0 old new s

unfoldable pub redact : Text → Text
redact value = replace_all (bytes "secret") (bytes "[REDACTED]") (
    replace_all (bytes "token=secret") (bytes "token=[REDACTED]") (
      replace_all (bytes ".jvs") (bytes "[REDACTED]")
        (replace_all (bytes "/raw/root") (bytes "[REDACTED]") value)))

unfoldable pub some_sensitive : List Text → Bool
some_sensitive [] = false
some_sensitive (value ∷ values) = contains_sensitive_material value || some_sensitive values

-- `none` is `ErrSensitiveEvidence`.
unfoldable pub redacted_evidence : Observation → Option Evidence
redacted_evidence o =
    if some_sensitive (
      o.evidence_ref ∷ o.observed_generation ∷ o.observed_snapshot_id ∷ o.observed_tombstone_marker
      ∷ o.observed_purge_marker ∷ [])
    then none
    else some (record {
      run_id = trim_space o.run_id;
      repo_id = trim_space o.repo_id;
      observed_generation = redact o.observed_generation;
      evidence_ref = trim_space o.evidence_ref;
    })
