-- ===== src/SoftEther/Pack/Tests.antt =====
-- Runs and witnesses for the PACK container.
use Prim.Native.Char.{code}
use Prim.Native.String.{String}
use lab_remote_go.Common.{
  put_u64, ◌≡◌, refl, [], ◌∷◌, ◌++◌, arith, Bytes, put_u32, get_u32, read_full,
}
use lab_remote_go.Common.Results.{ok, err}
use lab_remote_go.SoftEther.Pack.{Pack, pack_unicode_string, pack_int64, text_value, int64_value}
use lab_remote_go.SoftEther.Pack.Codec.{
  marshal, write_elements, write_element, write_values, write_pack_value, write_pack_string,
  unmarshal_pack, read_elements, read_element, read_values, read_pack_value, read_sized,
  read_pack_string, read_bytes, read_u64, read_u32, trim_nul, eof, trailing_data,
}
use lab_remote_go.SoftEther.Pack.RoundTrip.{IsWire, IsWireValue, unmarshal-marshal}
use lab_remote_go.SoftEther.Pack.Limits.{PackFits, unmarshal_pack-PackFits}

abbrev codes : String → Bytes
codes String.[] = []
codes (String.◌∷◌ c s) = code c ∷ codes s

abbrev empty : Pack
empty = record { elements = [] }

abbrev hello : Pack
hello = record {
  elements =
      record {
        name = codes "hello";
        kind = pack_unicode_string;
        values = text_value (codes "hi") ∷ [];
      }
      ∷ record { name = codes "n"; kind = pack_int64; values = int64_value 7 ∷ int64_value 8 ∷ [] }
      ∷ [];
}

abbrev hello_bytes : Bytes
hello_bytes =
    0 ∷ 0 ∷ 0 ∷ 2 ∷ 0 ∷ 0 ∷ 0 ∷ 6 ∷ 104 ∷ 101 ∷ 108 ∷ 108 ∷ 111 ∷ 0 ∷ 0 ∷ 0 ∷ 3 ∷ 0 ∷ 0 ∷ 0 ∷ 1 ∷ 0
    ∷ 0 ∷ 0 ∷ 3 ∷ 104 ∷ 105 ∷ 0 ∷ 0 ∷ 0 ∷ 0 ∷ 2 ∷ 110 ∷ 0 ∷ 0 ∷ 0 ∷ 4 ∷ 0 ∷ 0 ∷ 0 ∷ 2 ∷ 0 ∷ 0 ∷ 0
    ∷ 0 ∷ 0 ∷ 0 ∷ 0 ∷ 7 ∷ 0 ∷ 0 ∷ 0 ∷ 0 ∷ 0 ∷ 0 ∷ 0 ∷ 8 ∷ []

marshal-hello : marshal hello ≡ ok hello_bytes
unfolding marshal write_elements write_element write_values write_pack_value write_pack_string
    put_u64 put_u32
marshal-hello = refl

unmarshal-hello : unmarshal_pack hello_bytes ≡ ok hello
unfolding unmarshal_pack read_elements read_element read_values read_pack_value read_sized
    read_pack_string read_bytes read_u64 read_u32 trim_nul get_u32 read_full
unmarshal-hello = refl

unmarshal_trailing : unmarshal_pack (hello_bytes ++ (1 ∷ [])) ≡ err trailing_data
unfolding unmarshal_pack read_elements read_element read_values read_pack_value read_sized
    read_pack_string read_bytes read_u64 read_u32 trim_nul get_u32 read_full
unmarshal_trailing = refl

unmarshal_short : unmarshal_pack (0 ∷ 0 ∷ 0 ∷ 1 ∷ []) ≡ err eof
unfolding unmarshal_pack read_elements read_element read_pack_string read_u32 get_u32
unmarshal_short = refl

hello-IsWire : IsWire hello
hello-IsWire = record {
  few = omega arith;
  all_wire = (
    record {
      named = omega arith;
      short = omega arith;
      some_values = omega arith;
      few_values = omega arith;
      kind_small = omega arith;
      wire = (IsWireValue.unicode (codes "hi") refl refl (omega arith), tt);
    },
    (
      record {
        named = omega arith;
        short = omega arith;
        some_values = omega arith;
        few_values = omega arith;
        kind_small = omega arith;
        wire = (
          IsWireValue.int64 7 refl refl (omega arith),
          (IsWireValue.int64 8 refl refl (omega arith), tt),
        );
      },
      tt,
    ),
  );
}

unmarshal-marshal_example : (bs : Bytes) × (marshal hello ≡ ok bs) × (unmarshal_pack bs ≡ ok hello)
unmarshal-marshal_example = unmarshal-marshal hello hello-IsWire

unmarshal_pack-PackFits_example : PackFits hello
unmarshal_pack-PackFits_example = unmarshal_pack-PackFits hello_bytes unmarshal-hello
