-- ===== src/Wire/Applications.antt =====
-- The lines of the body of a list (server/server.go), as `List` of client/exe/client.go reads them.
use ade_ctld.Text.{bytes_eq}
use ade_ctld.Common.{
  All, List, [], ap, arith, false, int64_limit, map, pos, refl, reverse, some, sym, ℤ, ◌++◌, ◌<◌,
  ◌∙◌, ◌∷◌, ◌≡◌, ◌≢◌,
}
use ade_ctld.Text.{
  Bytes, IsInk, IsTrimmed, codes, fields, fields-word, fields_nil, join, last_width, str_eq,
  trim_space-IsTrimmed, width-IsInk,
}
use ade_ctld.Strconv.{format_int, format_uint, parse_int}
use ade_ctld.Strconv.RoundTrip.{
  IsNumeric, format_int-IsNumeric, format_int-ne-nil, parse_int-format_int,
}
use ade_ctld.Index.{Entry}
use ade_ctld.Client.Calls.{Application, app_of_line, app_of_words, apps_of_body, apps_of_lines}
use ade_ctld.Wire.Frame.{lines_of}
use ade_ctld.Wire.Body.{
  IsTextLine, apps_of_body-lines, last_width-ascii, reverse-around, reverse-ne-nil,
}
use ade_ctld.Server.Listing.{shown_name}
use ade_ctld.Server.Listing.Lines.{HasCleanNames, entry_line, entry_lines-AreMarked}

-- What the client can show of an entry: the identifier is an `int64`, and the name has a word and
-- does not end with white space.
pub record IsReadable (lang : Bytes) (e : Entry) : Type 0 where
  pub id_fits : e.id < int64_limit
  pub word : Bytes
  pub words : List Bytes
  pub same_words : fields (shown_name lang e) ≡ word ∷ words
  pub name_back : last_width (reverse (shown_name lang e)) ≡ 0

-- the application that the client makes of it
abbrev pub shown_app : Bytes → Entry → Application
shown_app lang e = record { id = pos e.id; name = join (fields (shown_name lang e)) (codes " ") }

All-IsInk : (s : Bytes) → All IsNumeric s → All IsInk s
All-IsInk [] h = tt
All-IsInk (c ∷ s) (hc, hs) = ((omega arith, omega arith), All-IsInk s hs)

-- a word of digits, a space and a name
module _ (digits name : Bytes) (ne : digits ≢ []) (numeric : All IsNumeric digits) where
  fields-digits : fields (digits ++ (b' ' ∷ name)) ≡ digits ∷ fields name
  fields-digits = by_cases digits ne numeric
    where
      by_cases :
          (s : Bytes) → s ≢ [] → All IsNumeric s → fields (s ++ (b' ' ∷ name)) ≡ s ∷ fields name
      by_cases [] h n = absurd (h refl)
      by_cases (c ∷ s) h n = fields-word c s name (All-IsInk (c ∷ s) n)

fields-ne-nil :
    (name : Bytes) {word : Bytes} {words : List Bytes} → fields name ≡ word ∷ words → name ≢ []
fields-ne-nil name h e = absurd (cc (sym fields_nil ∙ sym (ap fields e) ∙ h))

entry_line-IsTextLine :
    (lang : Bytes) (e : Entry)
    → HasCleanNames e
    → IsReadable lang e
    → IsTextLine (entry_line lang e)
entry_line-IsTextLine lang e clean r =
    let name = shown_name lang e in
    record {
      first = (entry_lines-AreMarked lang (e ∷ []) (clean, tt)).0;
      last = rw (reverse-around b' ' (format_uint e.id) name) (
          last_width-ascii b' ' (reverse name) (reverse (format_uint e.id)) (omega arith)
            (reverse-ne-nil name (fields-ne-nil name r.same_words)) r.name_back);
    }

-- a line that starts with a mark is not empty and is not trimmed at its front
IsTextLine-IsTrimmed : (s : Bytes) → IsTextLine s → IsTrimmed s × (str_eq s [] ≡ false)
unfolding str_eq
IsTextLine-IsTrimmed [] t = elim t.first [ ]
IsTextLine-IsTrimmed (c ∷ s) t = (record { front = width-IsInk c s t.first.0; back = t.last }, refl)

app_of_line-words :
    (line first word : Bytes) (words : List Bytes) (id : ℤ)
    → IsTextLine line
    → fields line ≡ first ∷ word ∷ words
    → parse_int first ≡ some id
    → app_of_line line ≡ some (record { id = id; name = join (word ∷ words) (codes " ") })
unfolding app_of_line app_of_words
app_of_line-words line first word words id t hf hp =
    let (trimmed, ne) = IsTextLine-IsTrimmed line t in
    rw (trim_space-IsTrimmed trimmed, ne, hf) (rw (hp, app_of_words) refl)

app_of_line-entry :
    (lang : Bytes) (e : Entry)
    → HasCleanNames e
    → IsReadable lang e
    → app_of_line (entry_line lang e) ≡ some (shown_app lang e)
unfolding format_int
app_of_line-entry lang e clean r =
    let name = shown_name lang e in
    app_of_line-words (entry_line lang e) (format_int (pos e.id)) r.word r.words (pos e.id)
      (entry_line-IsTextLine lang e clean r)
      (fields-digits (format_int (pos e.id)) name (format_int-ne-nil (pos e.id))
          (format_int-IsNumeric (pos e.id))
        ∙ ap (◌∷◌ (format_int (pos e.id))) r.same_words)
      (parse_int-format_int (pos e.id) r.id_fits)
    ∙ ap (λ ws. some (record { id = pos e.id; name = join ws (codes " ") })) (sym r.same_words)

apps_of_lines-entries :
    (lang : Bytes) (shown : List Entry)
    → All HasCleanNames shown
    → All (IsReadable lang) shown
    → apps_of_lines (map (entry_line lang) shown) ≡ map (shown_app lang) shown
unfolding apps_of_lines
apps_of_lines-entries lang [] h r = refl
apps_of_lines-entries lang (e ∷ es) (h, hs) (r, rs) =
    rw (app_of_line-entry lang e h r, apps_of_lines) (rw (apps_of_lines-entries lang es hs rs) refl)

entries-AreTextLines :
    (lang : Bytes) (shown : List Entry)
    → All HasCleanNames shown
    → All (IsReadable lang) shown
    → All IsTextLine (map (entry_line lang) shown)
entries-AreTextLines lang [] h r = tt
entries-AreTextLines lang (e ∷ es) (h, hs) (r, rs) =
    (entry_line-IsTextLine lang e h r, entries-AreTextLines lang es hs rs)

-- The body of a list is read as the applications that were listed, in their order.
pub apps_of_body-entries :
    (lang : Bytes) (shown : List Entry)
    → All HasCleanNames shown
    → All (IsReadable lang) shown
    → apps_of_body (lines_of (map (entry_line lang) shown)) ≡ map (shown_app lang) shown
apps_of_body-entries lang shown h r =
    apps_of_body-lines (map (entry_line lang) shown) (entries-AreTextLines lang shown h r)
    ∙ apps_of_lines-entries lang shown h r
