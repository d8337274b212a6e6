-- ===== src/Sessions/Label.antt =====
-- src/sessions.ts: `deviceLabel`, a short label from a User-Agent string.
use dsh_full_remote.Prelude.{
  ℕ, ◌≤◌, ◌≡◌, Bool, true, false, not, ◌&&◌, ◌||◌, Option, none, some, [], ◌∷◌, ◌++◌, arith, leb,
  ◌==◌, if◌then◌else◌, get_or, length, take, drop, length-append, refl, Bool-cases, inl, inr,
}
use dsh_full_remote.Prelude.Text.{Text, codes, text_eq, starts_with, to_lower}

-- A regular expression that is a plain string matches where the string occurs.
unfoldable pub contains : Text → Text → Bool
contains p [] = starts_with p []
contains p (x ∷ s) = starts_with p (x ∷ s) || contains p s

-- `\w`.
abbrev is_word_char : ℕ → Bool
is_word_char c =
    (leb b'a' c && leb c b'z')
    || (leb b'A' c && leb c b'Z')
    || (leb b'0' c && leb c b'9')
    || c == b'_'

-- No word character starts `s`: the `\b` behind a word.
abbrev word_ends : Text → Bool
word_ends [] = true
word_ends (c ∷ s) = not (is_word_char c)

-- `\bp\b`: `p` occurs with no word character before it (`before`) or behind it.
contains_word : Bool → Text → Text → Bool
contains_word before p [] = false
contains_word before p (x ∷ s) =
    (not before && starts_with p (x ∷ s) && word_ends (drop (length p) (x ∷ s)))
    || contains_word (is_word_char x) p s

-- `BROWSERS.find(…)`.
find_browser : Text → Option Text
unfolding contains contains_word
find_browser ua =
    if contains (codes "Edg/") ua
    then some (codes "Edge")
    else if contains (codes "opr/") (to_lower ua)
        || contains_word false (codes "opera") (to_lower ua)
    then some (codes "Opera")
    else if contains (codes "Firefox/") ua
    then some (codes "Firefox")
    else if contains (codes "Chrome/") ua
    then some (codes "Chrome")
    else if contains (codes "Safari/") ua
    then some (codes "Safari")
    else none

-- `OSES.find(…)`.
find_os : Text → Option Text
unfolding contains
find_os ua =
    if contains (codes "iPhone") ua || contains (codes "iPad") ua || contains (codes "iPod") ua
    then some (codes "iOS")
    else if contains (codes "Android") ua
    then some (codes "Android")
    else if contains (codes "Mac OS X") ua || contains (codes "Macintosh") ua
    then some (codes "macOS")
    else if contains (codes "Windows NT") ua
    then some (codes "Windows")
    else if contains (codes "Linux") ua
    then some (codes "Linux")
    else none

abbrev unknown_device : Text
unknown_device = codes "Unknown device"

label_of : Option Text → Option Text → Text
label_of none none = unknown_device
label_of browser os =
    get_or browser (codes "Browser") ++ (codes " on " ++ get_or os (codes "unknown OS"))

-- `deviceLabel(userAgent)`, with its default fallback.
unfoldable pub device_label : Option Text → Text
unfolding find_browser find_os label_of
device_label user_agent =
    let ua = take 256 (get_or user_agent []) in
    if text_eq ua [] then unknown_device else label_of (find_browser ua) (find_os ua)

find_browser-length : (ua b : Text) → find_browser ua ≡ some b → length b ≤ 7
unfolding find_browser
find_browser-length ua b e = ground arith

find_os-length : (ua o : Text) → find_os ua ≡ some o → length o ≤ 7
unfolding find_os
find_os-length ua o e = ground arith

label_of-length :
    (b o : Option Text)
    → ((x : Text) → b ≡ some x → length x ≤ 7)
    → ((x : Text) → o ≡ some x → length x ≤ 7)
    → length (label_of b o) ≤ 21
unfolding label_of
label_of-length none none p q = omega arith
label_of-length (some b) none p q =
    omega (arith, p b refl, length-append b (codes " on " ++ codes "unknown OS"))
label_of-length none (some o) p q = omega (arith, q o refl)
label_of-length (some b) (some o) p q =
    omega (arith, p b refl, q o refl, length-append b (codes " on " ++ o))

-- A derived label has at most 21 characters.
pub device_label-length : (user_agent : Option Text) → length (device_label user_agent) ≤ 21
unfolding device_label
device_label-length user_agent =
    let ua = take 256 (get_or user_agent []) in
    elim (Bool-cases (text_eq ua [])) [
      | inl e ↦ rw e (omega arith)
      | inr e ↦ rw e (
          label_of-length (find_browser ua) (find_os ua) (find_browser-length ua)
            (find_os-length ua))
    ]
