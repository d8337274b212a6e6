-- ===== src/Audit.antt =====
-- src/audit.ts: the audit log, as its two files. A file is its bytes, or missing; how the platform ends the steps of
-- a write is an argument, and so are the reading of UTF-8 and of a JSON line, with the event that it names. The
-- writes are queued by the code: one runs after another.
use dsh_full_remote.Prelude.{
  ℕ, ◌+◌, ◌-◌, ◌*◌, ◌≤◌, ◌≡◌, refl, Bool, true, false, not, Option, none, some, List, [], ◌∷◌, ◌++◌,
  ◌==◌, ltb, leb, length, length-append, drop, if◌then◌else◌, arith,
}
use dsh_full_remote.Prelude.Text.{Text, text_eq, trim, split, index_of}

-- `DEFAULT_MAX_AUDIT_BYTES`
abbrev pub default_max_audit_bytes : ℕ
default_max_audit_bytes = 8 * 1024 * 1024

-- `TAIL_READ_BYTES`
abbrev pub tail_read_bytes : ℕ
tail_read_bytes = 64 * 1024

-- The files at the path and at the path with `.1`.
pub record AuditFiles : Type 0 where
  pub current : Option (List ℕ)
  pub rotated : Option (List ℕ)

-- Whether the steps of a write succeed: `mkdir`, `stat` of a file that is there, `rm`, `rename` and `appendFile`.
pub record Outcome : Type 0 where
  pub makes : Bool
  pub stats : Bool
  pub removes : Bool
  pub renames : Bool
  pub appends : Bool

-- `options.maxBytes`, where it is a positive number.
abbrev pub max_bytes_of : Option ℕ → ℕ
max_bytes_of none = default_max_audit_bytes
max_bytes_of (some n) = if n == 0 then default_max_audit_bytes else n

abbrev pub content_of : Option (List ℕ) → List ℕ
content_of none = []
content_of (some bytes) = bytes

abbrev pub append_line : AuditFiles → Outcome → List ℕ → AuditFiles
append_line f o line =
    let longer : AuditFiles = record f { current = some (content_of f.current ++ line) } in
    if o.appends then longer else f

-- The job that `write` queues; where a step fails, what was done before it stays.
unfoldable pub write_line : ℕ → AuditFiles → Outcome → List ℕ → AuditFiles
write_line max_bytes f o line =
    let size = if o.stats then length (content_of f.current) else 0 in
    let removed : AuditFiles = record f { rotated = none } in
    let moved : AuditFiles = record { current = none; rotated = f.current } in
    if not o.makes
    then f
    else if not (leb max_bytes size)
    then append_line f o line
    else if not o.removes
    then f
    else if not o.renames
    then removed
    else append_line moved o line

-- A queue of writes.
unfoldable pub write_lines : ℕ → AuditFiles → List (Outcome × List ℕ) → AuditFiles
write_lines max_bytes f [] = f
write_lines max_bytes f ((o, line) ∷ lines) =
    write_lines max_bytes (write_line max_bytes f o line) lines

-- `events.slice(-limit)`, of a limit that is not 0.
abbrev pub newest_events {ℓ} : {A : Type ℓ} → ℕ → List A → List A
newest_events limit events = drop (length events - limit) events

module _ {ℓ} {A : Type ℓ} (decode : List ℕ → Text) (parse : Text → Option (A × Option Text)) where
  abbrev pub is_wanted : Option Text → Option Text → Bool
  is_wanted none named = true
  is_wanted (some event) none = false
  is_wanted (some event) (some named) = text_eq event named

  abbrev pub parse_lines : Option Text → List Text → List A
  parse_lines event [] = []
  parse_lines event (line ∷ lines) =
      let rest = parse_lines event lines in
      if text_eq (trim line) [] then rest else elim (parse line) [
        | none ↦ rest
        | some (parsed, named) ↦ if is_wanted event named then parsed ∷ rest else rest
      ]

  -- `parseJsonl`
  unfoldable pub parse_jsonl : Text → Option Text → List A
  parse_jsonl text event = parse_lines event (split b'\n' text)

  -- The text after its first line; none where there is no end of a line.
  abbrev pub without_first_line : Text → Option Text
  without_first_line text = elim (index_of b'\n' text) [
    | none ↦ none
    | some i ↦ some (drop (i + 1) text)
  ]

  -- `readAuditLog` of a file that can be read.
  unfoldable pub read_audit_log : List ℕ → ℕ → Option Text → List A
  read_audit_log bytes limit event =
      let text = decode (drop (length bytes - tail_read_bytes) bytes) in
      if ltb tail_read_bytes (length bytes)
      then elim (without_first_line text) [
        | none ↦ []
        | some rest ↦ newest_events limit (parse_jsonl rest event)
      ]
      else newest_events limit (parse_jsonl text event)

  -- `readAuditLogAll` of a file that can be read.
  unfoldable pub read_audit_log_all : List ℕ → Option Text → List A
  read_audit_log_all bytes event = parse_jsonl (decode bytes) event

  -- Of a log within the tail window, the newest events of the export are what the panel reads.
  pub read_audit_log-newest_events :
      (bytes : List ℕ) (limit : ℕ) (event : Option Text)
      → length bytes ≤ tail_read_bytes
      → read_audit_log bytes limit event ≡ newest_events limit (read_audit_log_all bytes event)
  unfolding read_audit_log read_audit_log_all
  read_audit_log-newest_events bytes limit event small =
      let whole : length bytes - tail_read_bytes ≡ 0 = omega (arith, small) in
      let short : ltb tail_read_bytes (length bytes) ≡ false = ground (arith, small) in
      rw (whole, short) refl

-- The lines of a history are no longer than a bound, and `stat` does not fail.
abbrev pub AreSteady : ℕ → List (Outcome × List ℕ) → Type 0
AreSteady longest [] = Unit
AreSteady longest ((o, line) ∷ lines) =
    (o.stats ≡ true) × (length line ≤ longest) × AreSteady longest lines

-- Both files stay below the threshold but for one line.
abbrev pub AreBounded : ℕ → ℕ → AuditFiles → Type 0
AreBounded max_bytes longest f =
    (length (content_of f.current) ≤ max_bytes + longest)
    × (length (content_of f.rotated) ≤ max_bytes + longest)

write_line-AreBounded :
    (max_bytes longest : ℕ) (f : AuditFiles) (o : Outcome) (line : List ℕ)
    → o.stats ≡ true
    → length line ≤ longest
    → AreBounded max_bytes longest f
    → AreBounded max_bytes longest (write_line max_bytes f o line)
unfolding write_line
write_line-AreBounded max_bytes longest f o line steady short b =
    ground (arith, steady, short, b, length-append (content_of f.current) line)

-- However the steps of the writes end, but for a `stat` that fails, each of the two files holds no more than the
-- threshold and one line.
pub write_lines-AreBounded :
    (max_bytes longest : ℕ) (lines : List (Outcome × List ℕ)) (f : AuditFiles)
    → AreSteady longest lines
    → AreBounded max_bytes longest f
    → AreBounded max_bytes longest (write_lines max_bytes f lines)
unfolding write_lines
write_lines-AreBounded max_bytes longest [] f s b = b
write_lines-AreBounded max_bytes longest ((o, line) ∷ lines) f (steady, short, s) b =
    write_lines-AreBounded max_bytes longest lines (write_line max_bytes f o line) s
      (write_line-AreBounded max_bytes longest f o line steady short b)
