-- ===== src/Packet.antt =====
-- shared/Packets/Packet.h and Packet.cpp: the byte buffer that a packet is built in.
-- `reserve(n)` is taken to raise the capacity to `n` exactly.
pub mod Append
use necroauth.Prelude.{
  ℕ, ◌+◌, ◌/◌, Bool, List, [], length, if◌then◌else◌, ltb, Result, ok, fault, Fault, add_size,
  resize, write_at, le_bytes, ℤ, pos, negsuc, ◌^◌, ◌%◌, ◌-◌, ◌>>=◌,
}

pub record Packet : Type 0 where
  pub rpos : ℕ
  pub wpos : ℕ
  pub bytes : List ℕ
  pub capacity : ℕ

-- `DEFAULT_PCKT_SIZE`
abbrev pub default_pckt_size : ℕ
default_pckt_size = 0x1000

-- `Packet(size_t reservedSize)`
unfoldable pub of_reserved_size : ℕ → Packet
of_reserved_size n = record { rpos = 0; wpos = 0; bytes = []; capacity = n }

-- `Packet()`
unfoldable pub new : Packet
unfolding of_reserved_size
new = of_reserved_size default_pckt_size

unfoldable pub clear : Packet → Packet
clear p = record p { rpos = 0; wpos = 0; bytes = [] }

-- `GetContent` and `GetContentToRead`: both throw on an empty packet.
unfoldable pub get_content_to_read : Packet → Result (List ℕ)
get_content_to_read p = if ltb 0 (length p.bytes) then ok p.bytes else fault Fault.thrown

unfoldable pub size : Packet → ℕ
size p = length p.bytes

unfoldable pub empty : Packet → Bool
empty p = if ltb 0 (length p.bytes) then Bool.false else Bool.true

-- The two growth steps of `Append`, for a new size.
pub grow : Packet → ℕ → Packet
grow p new_size = record p {
  capacity = if ltb p.capacity new_size then add_size new_size (new_size / 2) else p.capacity;
  bytes = if ltb (length p.bytes) new_size then resize new_size p.bytes else p.bytes;
}

-- `memcpy(&m_data[m_wpos], src, cnt); m_wpos = newSize;` where `operator[]` wants an element.
pub copy_in : Packet → List ℕ → ℕ → Result Packet
copy_in p src new_size =
    if ltb p.wpos (length p.bytes)
    then ok (record p { bytes = write_at p.bytes p.wpos src; wpos = new_size })
    else fault Fault.out_of_bounds

-- `Append(uint8_t const* src, size_t cnt)`
unfoldable pub append : Packet → List ℕ → Result Packet
unfolding grow copy_in
append p src = let new_size = add_size p.wpos (length src) in copy_in (grow p new_size) src new_size

-- `operator<<` on the integer types, through `Append<T>`: the bytes of the value.
unfoldable pub put_int : ℕ → ℕ → Packet → Result Packet
unfolding append
put_int width value p = append p (le_bytes width value)

abbrev pub put_u8 : ℕ → Packet → Result Packet
put_u8 = put_int 1

abbrev pub put_u16 : ℕ → Packet → Result Packet
put_u16 = put_int 2

abbrev pub put_u32 : ℕ → Packet → Result Packet
put_u32 = put_int 4

abbrev pub put_u64 : ℕ → Packet → Result Packet
put_u64 = put_int 8

abbrev pub put_bool : Bool → Packet → Result Packet
put_bool b = put_int 1 (if b then 1 else 0)

-- `operator<<(std::string const&)`: the characters, with no terminator.
unfoldable pub put_string : List ℕ → Packet → Result Packet
unfolding append
put_string s p = append p s

-- The representation of a signed integer in this many bytes: two's complement.
abbrev pub to_unsigned : ℕ → ℤ → ℕ
to_unsigned width (pos n) = n % 256 ^ width
to_unsigned width (negsuc n) = 256 ^ width - 1 - n % 256 ^ width

abbrev pub put_i8 : ℤ → Packet → Result Packet
put_i8 i = put_int 1 (to_unsigned 1 i)

abbrev pub put_i16 : ℤ → Packet → Result Packet
put_i16 i = put_int 2 (to_unsigned 2 i)

abbrev pub put_i32 : ℤ → Packet → Result Packet
put_i32 i = put_int 4 (to_unsigned 4 i)

abbrev pub put_i64 : ℤ → Packet → Result Packet
put_i64 i = put_int 8 (to_unsigned 8 i)

-- A floating-point number is given by its bit pattern.
abbrev pub put_float : ℕ → Packet → Result Packet
put_float = put_int 4

abbrev pub put_double : ℕ → Packet → Result Packet
put_double = put_int 8

-- `operator<<(const char*)`: the characters before the terminator, and then the terminator.
unfoldable pub put_c_string : List ℕ → Packet → Result Packet
unfolding append
put_c_string s p = append p s >>= λ q. put_int 1 0 q
