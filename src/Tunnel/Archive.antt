-- ===== src/Tunnel/Archive.antt =====
-- src/tunnel.ts: `extractTgzSingleFile`. What `gunzipSync` gives is the argument; the rest of the buffer
-- from `offset` takes the place of the buffer and the offset.
use dsh_full_remote.Prelude.{
  ℕ, zero, suc, ◌+◌, ◌-◌, ◌*◌, ◌/◌, ◌<◌, ◌≡◌, refl, Bool, true, false, ◌&&◌, ◌||◌, Option, none,
  some, List, [], ◌∷◌, arith, ◌==◌, leb, ltb, length, take, drop, if◌then◌else◌, Option-cases,
  Bool-cases, if_both, inl, inr,
}
use dsh_full_remote.Prelude.Text.{Text, trim}

abbrev pub Bytes : Type 0
Bytes = List ℕ

-- `bytes[i]`
abbrev pub byte_at : ℕ → Bytes → Option ℕ
byte_at i bytes = elim (drop i bytes) [ [] ↦ none | b ∷ l ↦ some b ]

abbrev pub is_byte : ℕ → Option ℕ → Bool
is_byte n none = false
is_byte n (some b) = b == n

-- `.replace(/\0.*$/s, '')`
unfoldable pub before_nul : Text → Text
before_nul [] = []
before_nul (x ∷ xs) = if x == 0 then [] else x ∷ before_nul xs

abbrev pub is_octal : ℕ → Bool
is_octal c = leb b'0' c && leb c b'7'

-- The octal digits that the text starts with, after some whose value is known.
unfoldable pub octal_prefix : Option ℕ → Text → Option ℕ
octal_prefix seen [] = seen
octal_prefix seen (c ∷ cs) =
    if is_octal c
    then octal_prefix (some (elim seen [ none ↦ 0 | some n ↦ n * 8 ] + (c - b'0'))) cs
    else seen

-- `Number.parseInt(text, 8)` of a trimmed text, where NaN and what is below 0 are none.
unfoldable pub parse_octal : Text → Option ℕ
unfolding octal_prefix
parse_octal [] = none
parse_octal (c ∷ cs) =
    if c == b'-'
    then elim (octal_prefix none cs) [ none ↦ none | some n ↦ if n == 0 then some 0 else none ]
    else octal_prefix none (if c == b'+' then cs else c ∷ cs)

-- `size` of a header.
unfoldable pub entry_size : Bytes → Option ℕ
unfolding before_nul parse_octal
entry_size header = parse_octal (trim (before_nul (take 12 (drop 124 header))))

-- How the loop ends: with the file, with one of its two errors, or, where the turns run out, not yet.
pub data Extraction : Type 0 where
  extracted : Bytes → Extraction
  corrupt : Extraction
  no_regular_file : Extraction
  unfinished : Extraction

-- The turns of the loop.
unfoldable pub extract_entries : ℕ → Bytes → Extraction
unfolding entry_size
extract_entries zero rest = unfinished
extract_entries (suc fuel) rest =
    if ltb (length rest) 512 || is_byte 0 (byte_at 0 rest)
    then no_regular_file
    else elim (entry_size rest) [
      | none ↦ corrupt
      | some size ↦
          let next = extract_entries fuel (drop (512 + (size + 511) / 512 * 512) rest) in
          if ltb (length rest) (512 + size)
          then corrupt
          else if is_byte 0 (byte_at 156 rest) || is_byte 48 (byte_at 156 rest)
          then extracted (take size (drop 512 rest))
          else next
    ]

-- `extractTgzSingleFile`, where an unpacked buffer of n bytes has at most n turns.
unfoldable pub extract_tgz_single_file : Bytes → Extraction
unfolding extract_entries
extract_tgz_single_file tar = extract_entries (suc (length tar)) tar

-- The file, where the extraction does not throw.
abbrev pub payload_of : Extraction → Option Bytes
payload_of (extracted bytes) = some bytes
payload_of _ = none

abbrev pub is_finished : Extraction → Bool
is_finished unfinished = false
is_finished _ = true

length-drop : (n : ℕ) (l : Bytes) → length (drop n l) ≡ length l - n
length-drop zero l = omega arith
length-drop (suc n) [] = omega arith
length-drop (suc n) (x ∷ l) = omega (arith, length-drop n l)

extract_entries-more :
    (fuel more : ℕ) (rest : Bytes)
    → length rest < fuel
    → length rest < more
    → extract_entries fuel rest ≡ extract_entries more rest
unfolding extract_entries
extract_entries-more zero more rest h k = ground arith
extract_entries-more (suc fuel) zero rest h k = ground arith
extract_entries-more (suc fuel) (suc more) rest h k = elim (Bool-cases (ltb (length rest) 512)) [
  | inl e ↦ rw e refl
  | inr e ↦ elim (Option-cases (entry_size rest)) [
    | inl n ↦ rw n refl
    | inr (size, n) ↦
        let shorter = length-drop (512 + (size + 511) / 512 * 512) rest in
        let next =
          extract_entries-more fuel more (drop (512 + (size + 511) / 512 * 512) rest) (ground arith)
            (ground arith) in
        ground (arith, next)
  ]
]

abbrev IsFinished : Extraction → Type 0
IsFinished e = is_finished e ≡ true

extract_entries-is_finished :
    (fuel : ℕ) (rest : Bytes) → length rest < fuel → is_finished (extract_entries fuel rest) ≡ true
unfolding extract_entries
extract_entries-is_finished zero rest h = ground arith
extract_entries-is_finished (suc fuel) rest h = elim (Bool-cases (ltb (length rest) 512)) [
  | inl e ↦ rw e refl
  | inr e ↦ elim (Option-cases (entry_size rest)) [
    | inl n ↦ rw (e, n) (if_both IsFinished (is_byte 0 (byte_at 0 rest)) refl refl)
    | inr (size, n) ↦
        let shorter = length-drop (512 + (size + 511) / 512 * 512) rest in
        let next =
          extract_entries-is_finished fuel (drop (512 + (size + 511) / 512 * 512) rest)
            (ground arith) in
        rw (e, n)
          (if_both IsFinished (is_byte 0 (byte_at 0 rest)) refl (
            if_both IsFinished (ltb (length rest) (512 + size)) refl (
              if_both IsFinished (is_byte 0 (byte_at 156 rest) || is_byte 48 (byte_at 156 rest))
                refl next)))
  ]
]

-- The loop over an archive ends: it passes at least the 512 bytes of a header in each turn, so that the turns
-- it has are enough to find a file or throw one of its errors, and further ones change nothing.
pub extract_tgz_single_file-is_finished :
    (tar : Bytes) (fuel : ℕ)
    → length tar < fuel
    → (is_finished (extract_tgz_single_file tar) ≡ true)
      × (extract_entries fuel tar ≡ extract_tgz_single_file tar)
unfolding extract_tgz_single_file
extract_tgz_single_file-is_finished tar fuel h = (
  extract_entries-is_finished (suc (length tar)) tar (omega arith),
  extract_entries-more fuel (suc (length tar)) tar h (omega arith),
)
