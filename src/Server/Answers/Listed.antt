-- ===== src/Server/Answers/Listed.antt =====
-- `List` of client/exe/client.go on the answer of `handleList` (server/server.go).
use mathlib.Core.List.{Permᴰ}
use mathlib.Core.List.Permᴰ
use ade_ctld.Text.{bytes_eq}
use ade_ctld.Common.{
  All, All-perm, All-take, EachPair, List, ap, map, refl, some, take, ◌++◌, ◌∙◌, ◌≡◌,
}
use ade_ctld.Text.{Bytes, Unicode}
use ade_ctld.Parser.Input.{Ending}
use ade_ctld.Index.{Entry, values}
use ade_ctld.RunIndex.{Bolt}
use ade_ctld.Config.{Config, list_limit}
use ade_ctld.Client.Calls.{apps_of_body, await, called, checked, client_list, ok}
use ade_ctld.Client.Receive.{Response, read_response}
use ade_ctld.Client.Receive
use ade_ctld.Wire.Frame.{lines_of}
use ade_ctld.Wire.Answers.{attrs_of, read_response-frame}
use ade_ctld.Wire.Attributes.{NoError, NoError-attrs_of}
use ade_ctld.Wire.Applications.{IsReadable, apps_of_body-entries, shown_app}
use ade_ctld.Server.State.{Host, Server, done}
use ade_ctld.Server.Filters.{filter_entries}
use ade_ctld.Server.Listing.{handle_list, list_page}
use ade_ctld.Server.Listing.Filtered.{IsFair, filter_entries-All}
use ade_ctld.Server.Listing.Response.{InFront, handle_list_lem}
use ade_ctld.Server.Listing.Lines.{
  HasCleanNames, IsListed, entry_line, entry_lines-AreMarked, list_page-IsListed,
}
use ade_ctld.Server.Dispatch.Step.{IsServer}
use ade_ctld.Server.Answers.Commands.{IsClean}

client_list-response :
    (attrs : Receive.Attrs) (text input rest : Bytes) (ending : Ending)
    → read_response input ending ≡ some (Receive.response attrs text rest)
    → NoError attrs
    → client_list input ending ≡ some (ok (apps_of_body text) rest)
unfolding client_list await called checked
client_list-response attrs text input rest ending h none_set = rw h (rw none_set refl)

client_list-IsListed :
    {lang : Bytes} {shown : List Entry} {bytes : Bytes} (rest : Bytes) (ending : Ending)
    → IsListed lang shown bytes
    → All HasCleanNames shown
    → All (IsReadable lang) shown
    → client_list (bytes ++ rest) ending ≡ some (ok (map (shown_app lang) shown) rest)
client_list-IsListed {lang} {shown} rest ending l clean readable =
    let texts = map (entry_line lang) shown in
    client_list-response (attrs_of l.lines) (lines_of texts) _ rest ending
      (rw l.same_bytes (
        read_response-frame l.lines (some texts) rest ending l.are_marked
          (entry_lines-AreMarked lang shown clean)))
      (NoError-attrs_of l.lines l.are_other)
    ∙ ap (λ apps. some (ok apps rest)) (apps_of_body-entries lang shown clean readable)

module _ (bolt : Bolt) (u : Unicode) (cfg : Config) (host : Host) (s : Server bolt.Db) where
  -- `List` of the client, on what the server answers to `list`, returns the identifiers and names
  -- of the first page, in the order of the server: the entries that pass the filters, those that
  -- have been run more often first, and by ascending identifiers among equals, as many as the
  -- limit allows. It reads the answer and nothing behind it. The texts of the server may not hold
  -- line feeds, and each shown name has a word and does not end with white space.
  pub client_list-handle_list :
      (rest : Bytes) (ending : Ending)
      → IsFair host
      → IsServer bolt s
      → IsClean s
      → All (IsReadable s.lang) (values s.index.entries)
      → (l : List Entry) × (response : Bytes) × (handle_list bolt u cfg host s ≡ done s response)
        × Permᴰ l (filter_entries u s.filters (values s.index.entries))
        × EachPair (InFront bolt u cfg s.run_index) l
        × (client_list (response ++ rest) ending
            ≡ some (ok (map (shown_app s.lang) (take (list_limit cfg) l)) rest))
  client_list-handle_list rest ending fair v clean readable =
      let (l, e, same, sorted) = handle_list_lem bolt u cfg host s fair v.runs in
      let among = Permᴰ.symm same in
      let limit = list_limit cfg in
      (
        l,
        list_page s.lang limit l,
        e,
        same,
        sorted,
        client_list-IsListed rest ending (list_page-IsListed s.lang limit l)
            (All-take HasCleanNames limit l (
              All-perm HasCleanNames among
                (filter_entries-All u s.filters HasCleanNames _ clean.clean_entries)))
            (All-take (IsReadable s.lang) limit l (
              All-perm (IsReadable s.lang) among
                (filter_entries-All u s.filters (IsReadable s.lang) _ readable))),
      )
