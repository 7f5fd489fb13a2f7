-- ===== src/Hdat/Api/Laws.antt =====
-- The answers of the writer's C interface (hdat/chunk_writer.cpp).
use native.Mathlib.Decide.{dec_le}
use sas_libclient.Base.{
  ℕ, ◌+◌, ◌^◌, ◌≤◌, ◌<◌, ◌≡◌, refl, true, false, List, some, leb, if◌then◌else◌, length, Outcome,
  ok, arith, le→leb,
}
use sas_libclient.Hdat.Writer.{Writer, write_variable}
use sas_libclient.Hdat.Appended.{IsValid, write_variable-Appended}
use sas_libclient.Hdat.RoundTrip.WriteRow.{free, has_enough_space_lem}
use sas_libclient.Hdat.Api.{if_space, api_write_variable, space_needed}

pub space_needed_lem : (len : ℕ) → len + 16 < 2 ^ 31 → space_needed len ≡ len + 16
unfolding space_needed
space_needed_lem len h = ground arith

module _ (w : Writer) (valid : IsValid w) where
  pub if_space_full :
      (space : ℕ) (op : Writer → Outcome Writer)
      → free w < space
      → if_space space op w ≡ ok (false, w)
  if_space_full space op h =
      let no_room : leb space (free w) ≡ false = ground arith in
      rw (has_enough_space_lem space w valid, no_room) refl

  pub if_space_some :
      (space : ℕ) (op : Writer → Outcome Writer) (w' : Writer)
      → space ≤ free w
      → op w ≡ ok w'
      → if_space space op w ≡ ok (true, w')
  if_space_some space op w' h e = rw (has_enough_space_lem space w valid, le→leb _ _ h, e) refl

  -- For a value of a length below 2^31 - 16 the C function WriteVariable returns true and takes 16
  -- bytes and the length if that much is free, and otherwise returns false and changes nothing.
  pub api_write_variable_lem :
      (v : List ℕ) (len : ℕ)
      → len ≤ length v
      → len + 16 < 2 ^ 31
      → (w' : Writer) × (api_write_variable (some v) len w
          ≡ (if leb (len + 16) (free w) then ok (true, w') else ok (false, w)))
        × (w'.current.offset + w'.current.variable_offset ≡ (
            if leb (len + 16) (free w)
            then w.current.offset + 16 + (w.current.variable_offset + len)
            else w.current.offset + w.current.variable_offset))
  unfolding api_write_variable
  api_write_variable_lem v len h small = elim (dec_le (len + 16) (free w)) [
    | yes room ↦
        let a = write_variable-Appended w valid len (omega (arith, valid.fits)) v h in
        let some_room : leb (len + 16) (free w) ≡ true = le→leb _ _ room in
        (
          a.out,
          rw (space_needed_lem len small, some_room)
              (if_space_some (len + 16) (write_variable (some v) len) a.out room a.returns),
          rw some_room (omega (arith, a.offset, a.variable)),
        )
    | no full ↦
        let no_room : leb (len + 16) (free w) ≡ false = ground arith in
        (
          w,
          rw (space_needed_lem len small, no_room)
              (if_space_full (len + 16) (write_variable (some v) len) (omega arith)),
          rw no_room refl,
        )
  ]
