-- ===== src/Pcapng/Args.antt =====
-- The command line (`parse_args` of examples/pcapng2parquet/src/pcapng2parquet_main.cpp).
use nanoarrow2parquet.Common.{
  ℕ, ◌*◌, ◌-◌, ◌^◌, Bool, true, false, ◌==◌, ◌||◌, Option, none, some, String, str_eq, List, [],
  ◌∷◌, ◌++◌, if◌then◌else◌,
}

pub record Args : Type 0 where
  pub compress : Bool
  pub decode_l2l3 : Bool
  pub lldp : Bool
  pub window_bytes : ℕ
  pub drop : ℕ
  pub take : ℕ
  pub pos : List String

-- UINT64_MAX
abbrev pub all_packets : ℕ
all_packets = 2 ^ 64 - 1

abbrev pub default_args : Args
default_args = record {
  compress = true;
  decode_l2l3 = false;
  lldp = false;
  window_bytes = 512 * 1024 * 1024;
  drop = 0;
  take = all_packets;
  pos = [];
}

pub data Flag : Type 0 where
  no_compress decode lldp_rules window_size dropped counted positional : Flag

unfoldable pub flag_of : String → Flag
flag_of s =
    if str_eq s "--no-compress"
    then no_compress
    else if str_eq s "--decode-l2l3"
    then decode
    else if str_eq s "--lldp"
    then lldp_rules
    else if str_eq s "--window-bytes"
    then window_size
    else if str_eq s "-d" || str_eq s "--drop"
    then dropped
    else if str_eq s "-c" || str_eq s "--count"
    then counted
    else positional

-- The arguments, a message, or the exception of std::stoull, which nothing catches.
pub data Parsed : Type 0 where
  parsed : Args → Parsed
  refused : Parsed
  thrown : Parsed

-- `stoull` gives none where std::stoull throws.
module _ (stoull : String → Option ℕ) where
  -- A flag that is not followed by its value, or by none that the flag takes, ends the loop.
  unfoldable pub parse_args : List String → Args → Parsed
  unfolding flag_of
  parse_args [] a = parsed a
  parse_args (s ∷ []) a = elim (flag_of s) [
    | no_compress ↦ parsed (record a { compress = false })
    | decode ↦ parsed (record a { decode_l2l3 = true })
    | lldp_rules ↦ parsed (record a { lldp = true })
    | positional ↦ parsed (record a { pos = a.pos ++ (s ∷ []) })
    | _ ↦ refused
  ]
  parse_args (s ∷ v ∷ rest) a = elim (flag_of s) [
    | no_compress ↦ parse_args (v ∷ rest) (record a { compress = false })
    | decode ↦ parse_args (v ∷ rest) (record a { decode_l2l3 = true })
    | lldp_rules ↦ parse_args (v ∷ rest) (record a { lldp = true })
    | positional ↦ parse_args (v ∷ rest) (record a { pos = a.pos ++ (s ∷ []) })
    | window_size ↦ elim (stoull v) [
      | none ↦ thrown
      | some n ↦ elim (n == 0) [
        | true ↦ refused
        | false ↦ parse_args rest (record a { window_bytes = n })
      ]
    ]
    | dropped ↦ elim (stoull v) [ none ↦ thrown | some n ↦ parse_args rest (record a { drop = n }) ]
    | counted ↦ elim (stoull v) [ none ↦ thrown | some n ↦ parse_args rest (record a { take = n }) ]
  ]
