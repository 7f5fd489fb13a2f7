-- ===== src/Connection/TextTests.antt =====
-- A row of the text protocol with a negative number, a string and a NULL.
use sas_libclient.Base.{
  ℕ, ◌≡◌, refl, true, List, [], ◌∷◌, Option, none, some, Text, text, to_bytes, ok, arith,
}
use sas_libclient.Connection.Fetch.{row, advance}
use sas_libclient.Connection.Protocols.{ends, also, null, bytes, int, advance_text-advance}
use sas_libclient.Connection.TextRows.{
  TextType, string_type, long, long_long, text_row, advance_text, text_cell, number_cell,
}
use sas_libclient.Hdat.Schema.{Cell}
use sas_libclient.Sql.Versions.{scan_signed}
use sas_libclient.Tsv.Quoted.{show_int, signed}

abbrev no_double : Text → Option ℕ
no_double s = none

abbrev types : List TextType
types = long ∷ string_type ∷ long_long ∷ []

abbrev texts : List (Option Text)
texts = some (show_int (signed 32 0xffff_fffb)) ∷ some (b'a' ∷ []) ∷ none ∷ []

abbrev values : List (Option (List ℕ))
values = some (to_bytes 4 0xffff_fffb) ∷ some (b'a' ∷ []) ∷ none ∷ []

minus_five :
    text_cell no_double 0 long (some (text "-5"))
    ≡ ok (record { value = some (0xfb ∷ 0xff ∷ 0xff ∷ 0xff ∷ []); length = 4 })
unfolding text_cell number_cell scan_signed text to_bytes
minus_five = refl

advance_text-advance_example :
    (cells : List Cell) × (advance_text no_double 0
        (record { last_fetched = none; fields = some types; pending = text_row texts ∷ [] })
      ≡ ok (true, record { last_fetched = some cells; fields = some types; pending = [] }))
    × (advance (record { last_fetched = none; pending = row values ∷ [] })
        ≡ ok (true, record { last_fetched = some cells; pending = [] }))
advance_text-advance_example =
    advance_text-advance no_double 0 types texts values none [] []
      (also (int 0xffff_fffb (omega arith)) (also (bytes (b'a' ∷ [])) (also (null long_long) ends)))
