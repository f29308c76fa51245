-- ===== src/H2/Settings.antt =====
-- src/courierust_h2/settings.rs: the typed table of SETTINGS parameters.
pub mod Valid
use courierust.Base.{
  ℕ, zero, suc, ◌+◌, ◌^◌, Bool, true, false, not, ◌&&◌, List, [], ◌∷◌, ◌++◌, ltb, leb, ◌==◌,
  if◌then◌else◌,
}
use courierust.Base.Bytes.{u16_to_be_bytes, u32_to_be_bytes}
use courierust.Error.{Result, ok, err, ErrorKind, protocol}

abbrev pub settings_header_table_size : ℕ
settings_header_table_size = 0x1

abbrev pub settings_enable_push : ℕ
settings_enable_push = 0x2

abbrev pub settings_max_concurrent_streams : ℕ
settings_max_concurrent_streams = 0x3

abbrev pub settings_initial_window_size : ℕ
settings_initial_window_size = 0x4

abbrev pub settings_max_frame_size : ℕ
settings_max_frame_size = 0x5

abbrev pub settings_max_header_list_size : ℕ
settings_max_header_list_size = 0x6

abbrev pub settings_no_rfc7540_priorities : ℕ
settings_no_rfc7540_priorities = 0x9

pub record Setting : Type 0 where
  pub id : ℕ
  pub value : ℕ

pub record Settings : Type 0 where
  pub header_table_size : ℕ
  pub enable_push : ℕ
  pub max_concurrent_streams : ℕ
  pub initial_window_size : ℕ
  pub max_frame_size : ℕ
  pub max_header_list_size : ℕ
  pub no_rfc7540_priorities : ℕ

unfoldable pub default : Settings
default = record {
  header_table_size = 4096;
  enable_push = 1;
  max_concurrent_streams = 0;
  initial_window_size = 65535;
  max_frame_size = 16384;
  max_header_list_size = 0;
  no_rfc7540_priorities = 0;
}

-- A round of the loop of `apply`: the new table, or the error that ends the loop.
unfoldable pub apply_one : Settings → Setting → Result Settings
apply_one t s =
    if s.id == settings_header_table_size
    then ok (record t { header_table_size = s.value })
    else if s.id == settings_enable_push
    then if ltb 1 s.value then err protocol else ok (record t { enable_push = s.value })
    else if s.id == settings_max_concurrent_streams
    then ok (record t { max_concurrent_streams = s.value })
    else if s.id == settings_initial_window_size
    then if ltb 0x7fff_ffff s.value
      then err protocol
      else ok (record t { initial_window_size = s.value })
    else if s.id == settings_max_frame_size
    then if not (leb 16384 s.value && leb s.value 16777215)
      then err protocol
      else ok (record t { max_frame_size = s.value })
    else if s.id == settings_max_header_list_size
    then ok (record t { max_header_list_size = s.value })
    else if s.id == settings_no_rfc7540_priorities
    then if ltb 1 s.value then err protocol else ok (record t { no_rfc7540_priorities = s.value })
    else ok t

-- `apply` changes the table in place: after an error the entries before the bad one stay applied.
unfoldable pub apply : Settings → List Setting → Settings × Result (Unit {0})
apply t [] = (t, ok tt)
apply t (s ∷ ss) = elim (apply_one t s) [ ok t' ↦ apply t' ss | err e ↦ (t, err e) ]

unfoldable pub to_vec : Settings → List Setting
to_vec t =
    record { id = settings_header_table_size; value = t.header_table_size }
    ∷ record { id = settings_enable_push; value = t.enable_push }
    ∷ record { id = settings_max_concurrent_streams; value = t.max_concurrent_streams }
    ∷ record { id = settings_initial_window_size; value = t.initial_window_size }
    ∷ record { id = settings_max_frame_size; value = t.max_frame_size }
    ∷ record { id = settings_max_header_list_size; value = t.max_header_list_size }
    ∷ record { id = settings_no_rfc7540_priorities; value = t.no_rfc7540_priorities }
    ∷ []

-- Six bytes for each entry.
abbrev pub entries_to_wire : List Setting → List ℕ
entries_to_wire [] = []
entries_to_wire (s ∷ ss) = u16_to_be_bytes s.id ++ (u32_to_be_bytes s.value ++ entries_to_wire ss)

unfoldable pub to_wire : Settings → List ℕ
unfolding to_vec
to_wire t = entries_to_wire (to_vec t)
