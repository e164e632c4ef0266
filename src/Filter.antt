-- ===== src/Filter.antt =====
-- The two filters of a port: netana_get_filter and netana_set_filter of
-- netanalyzer_kernel_mod/toolkit/netana_functions.c.
pub mod Layout
pub mod Laws
mod Tests
use nadrvlinux.Prelude.{
  ℕ, Bool, true, false, not, Option, none, some, List, [], ◌++◌, get_or, set, take, drop, replicate,
  ltb, ◌==◌, if◌then◌else◌,
}
use nadrvlinux.Codes.{no_error, invalid_parameter, invalid_port, invalid_buffersize, capture_active}
use nadrvlinux.Device.{Device, DpmFilter, is_capture_running}

-- `NETANA_FILTER_T` of the caller, with the bytes behind its pointers. A null pointer is `none`.
pub record Filter : Type 0 where
  pub filter_size : ℕ
  pub mask : Option (List ℕ)
  pub value : Option (List ℕ)

-- What netana_get_filter leaves to its caller: the code, the relation if it was asked for and
-- written, and the two structures.
pub record FilterAnswer : Type 0 where
  pub code : ℕ
  pub relation_ship : Option ℕ
  pub filter_a : Option Filter
  pub filter_b : Option Filter

abbrev pub memcpy : List ℕ → List ℕ → ℕ → List ℕ
memcpy dst src n = take n src ++ drop n dst

abbrev pub clear : List ℕ → ℕ → List ℕ
clear dst n = replicate n 0 ++ drop n dst

abbrev pub no_filter : DpmFilter
no_filter = record { relation_ship = 0; mask_a = []; value_a = []; mask_b = []; value_b = [] }

-- `atFilters[ulPort]`; the port is below `ulPortCnt` wherever it is used.
abbrev pub filter_at : Device → ℕ → DpmFilter
filter_at d port = get_or d.filters port no_filter

-- One of the two filters copied to the caller: `none` when a pointer in the structure is null.
unfoldable pub fetch : ℕ → List ℕ → List ℕ → Option Filter → Option (Option Filter)
fetch size mask value none = some none
fetch size mask value (some f) =
    if f.filter_size == 0 then some (some f) else fetched f.mask f.value
  where
    n : ℕ
    n = if ltb size f.filter_size then size else f.filter_size

    fetched : Option (List ℕ) → Option (List ℕ) → Option (Option Filter)
    fetched (some m) (some v) = some (
        some (record {
          filter_size = n;
          mask = some (memcpy m mask n);
          value = some (memcpy v value n);
        }))
    fetched none v = none
    fetched (some m) none = none

unfoldable pub get_filter : Device → ℕ → Bool → Option Filter → Option Filter → FilterAnswer
unfolding fetch
get_filter d port want_relation a b =
    if not (ltb port d.port_cnt)
    then record { code = invalid_port; relation_ship = none; filter_a = a; filter_b = b }
    else elim (fetch d.filter_size p.mask_a p.value_a a) [
      | none ↦ record {
        code = invalid_parameter;
        relation_ship = relation;
        filter_a = a;
        filter_b = b;
      }
      | some a' ↦ elim (fetch d.filter_size p.mask_b p.value_b b) [
        | none ↦ record {
          code = invalid_parameter;
          relation_ship = relation;
          filter_a = a';
          filter_b = b;
        }
        | some b' ↦ record {
          code = no_error;
          relation_ship = relation;
          filter_a = a';
          filter_b = b';
        }
      ]
    ]
  where
    p : DpmFilter
    p = filter_at d port

    relation : Option ℕ
    relation = if want_relation then some p.relation_ship else none

-- The check of one structure of the caller.
unfoldable pub validate : ℕ → Option Filter → ℕ
validate size none = no_error
validate size (some f) = if f.filter_size == 0 then no_error else validated f.mask f.value
  where
    validated : Option (List ℕ) → Option (List ℕ) → ℕ
    validated (some m) (some v) = if ltb size f.filter_size then invalid_buffersize else no_error
    validated none v = invalid_parameter
    validated (some m) none = invalid_parameter

-- The bytes copied over a cleared mask or value. The pointer is not null, which `validate` says.
abbrev pub copied : List ℕ → ℕ → Option (List ℕ) → List ℕ
copied dst n none = dst
copied dst n (some src) = memcpy dst src n

unfoldable pub store : (Filter → Option (List ℕ)) → Option Filter → List ℕ → List ℕ
store bytes none dst = dst
store bytes (some f) dst = if f.filter_size == 0 then dst else copied dst f.filter_size (bytes f)

unfoldable pub new_filter : ℕ → DpmFilter → Option Filter → Option Filter → ℕ → DpmFilter
unfolding store
new_filter size p a b relation_ship = record {
  relation_ship = relation_ship;
  mask_a = store (λ f. f.mask) a (clear p.mask_a size);
  value_a = store (λ f. f.value) a (clear p.value_a size);
  mask_b = store (λ f. f.mask) b (clear p.mask_b size);
  value_b = store (λ f. f.value) b (clear p.value_b size);
}

unfoldable pub set_filter : Device → ℕ → Option Filter → Option Filter → ℕ → ℕ × Device
unfolding is_capture_running validate new_filter
set_filter d port a b relation_ship =
    if is_capture_running d
    then (capture_active, d)
    else if not (validate d.filter_size a == no_error)
    then (validate d.filter_size a, d)
    else if not (validate d.filter_size b == no_error)
    then (validate d.filter_size b, d)
    else if ltb port d.port_cnt
    then (
      no_error,
      record d {
        filters =
            set d.filters port (new_filter d.filter_size (filter_at d port) a b relation_ship);
      },
    )
    else (invalid_port, d)
