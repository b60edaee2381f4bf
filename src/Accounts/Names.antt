-- ===== src/Accounts/Names.antt =====
-- app/auth.py: email addresses and workspace slugs, on ASCII. A regular expression is written as the
-- scanner that accepts the same texts.
use Prim.Native.Char.{Char, code}
use Prim.Native.String.{String}
use ghost_busters.Prelude.{◌≡◌, refl, Bool, true, false, ◌&&◌, ◌||◌, if◌then◌else◌, leb, ◌==◌}
use ghost_busters.Prelude.Text.{◌==◌ as text_eq, append, lower}
use ghost_busters.Prelude.Strip.{is_space, strip}

unfoldable pub normalize_email : String → String
unfolding strip lower
normalize_email email = lower (strip email)

-- How much of `[^@\s]+@[^@\s]+\.[^@\s]+` has been read: nothing, a local part, its `@`, a domain, a
-- dot after a domain, and a text that matches.
pub data Progress : Type 0 where
  start local at domain dot complete : Progress

-- `c` is in `[^@\s]`
abbrev is_plain : Char → Bool
is_plain c = if code c == 64 then false else if is_space c then false else true

abbrev advance : Progress → Char → Progress
advance Progress.start c = Progress.local
advance Progress.local c = Progress.local
advance Progress.at c = Progress.domain
advance Progress.domain c = if code c == 46 then Progress.dot else Progress.domain
advance Progress.dot c = Progress.complete
advance Progress.complete c = Progress.complete

abbrev is_local : Progress → Bool
is_local Progress.local = true
is_local _ = false

abbrev is_complete : Progress → Bool
is_complete Progress.complete = true
is_complete _ = false

matches : Progress → String → Bool
matches p String.[] = is_complete p
matches p (String.◌∷◌ c s) =
    let plain = matches (advance p c) s in
    let separator = matches Progress.at s in
    if is_plain c then plain else code c == 64 && (is_local p && separator)

unfoldable pub is_valid_email : String → Bool
unfolding matches
is_valid_email email = matches Progress.start email

-- `c` is in `[a-z0-9]`
abbrev pub is_slug_char : Char → Bool
is_slug_char c = leb 97 (code c) && leb (code c) 122 || leb 48 (code c) && leb (code c) 57

-- `re.sub(r"[^a-z0-9]+", "-", s).strip("-")`: a run of other characters is one dash, written in front
-- of the next character that stays. The flags say whether anything has been written and whether a
-- dash is due.
unfoldable pub hyphenate : Bool → Bool → String → String
hyphenate written due String.[] = ""
hyphenate written due (String.◌∷◌ c s) =
    let keep = hyphenate true false s in
    let skip = hyphenate written true s in
    if is_slug_char c
    then (if written && due then append "-" (String.◌∷◌ c keep) else String.◌∷◌ c keep)
    else skip

-- `suffix` stands for the random hexadecimal digits of an empty slug
unfoldable pub slugify : String → String → String
unfolding hyphenate strip lower
slugify suffix value =
    let slug = hyphenate false false (lower (strip value)) in
    if text_eq slug "" then append "workspace-" suffix else slug

accepts : is_valid_email "ann@example.org" ≡ true
unfolding is_valid_email matches
accepts = refl

rejects : is_valid_email "ann@example" ≡ false
unfolding is_valid_email matches
rejects = refl

rejects_space : is_valid_email "ann b@example.org" ≡ false
unfolding is_valid_email matches
rejects_space = refl

slugs : slugify "abc" " Acme & Sons, Inc. " ≡ "acme-sons-inc"
unfolding slugify
slugs = refl
