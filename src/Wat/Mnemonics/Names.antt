-- ===== src/Wat/Mnemonics/Names.antt =====
-- The names of the instructions (`MNEMONICS` of src/deep_wat.c), as bytes, with their opcodes.
use deepvm.Base.{ℕ, List, [], ◌∷◌}

abbrev pub control_mnemonics : List (List ℕ × ℕ)
control_mnemonics =
    (b'u' ∷ b'n' ∷ b'r' ∷ b'e' ∷ b'a' ∷ b'c' ∷ b'h' ∷ b'a' ∷ b'b' ∷ b'l' ∷ b'e' ∷ [], 0x00)
    ∷ (b'n' ∷ b'o' ∷ b'p' ∷ [], 0x01)
    ∷ (b'b' ∷ b'l' ∷ b'o' ∷ b'c' ∷ b'k' ∷ [], 0x02)
    ∷ (b'l' ∷ b'o' ∷ b'o' ∷ b'p' ∷ [], 0x03)
    ∷ (b'i' ∷ b'f' ∷ [], 0x04)
    ∷ (b'e' ∷ b'l' ∷ b's' ∷ b'e' ∷ [], 0x05)
    ∷ (b'e' ∷ b'n' ∷ b'd' ∷ [], 0x0b)
    ∷ (b'b' ∷ b'r' ∷ [], 0x0c)
    ∷ (b'b' ∷ b'r' ∷ b'_' ∷ b'i' ∷ b'f' ∷ [], 0x0d)
    ∷ (b'b' ∷ b'r' ∷ b'_' ∷ b't' ∷ b'a' ∷ b'b' ∷ b'l' ∷ b'e' ∷ [], 0x0e)
    ∷ (b'r' ∷ b'e' ∷ b't' ∷ b'u' ∷ b'r' ∷ b'n' ∷ [], 0x0f)
    ∷ (b'c' ∷ b'a' ∷ b'l' ∷ b'l' ∷ [], 0x10)
    ∷ (
      b'c' ∷ b'a' ∷ b'l' ∷ b'l' ∷ b'_' ∷ b'i' ∷ b'n' ∷ b'd' ∷ b'i' ∷ b'r' ∷ b'e' ∷ b'c' ∷ b't' ∷ [],
      0x11,
    )
    ∷ (b'd' ∷ b'r' ∷ b'o' ∷ b'p' ∷ [], 0x1a)
    ∷ (b's' ∷ b'e' ∷ b'l' ∷ b'e' ∷ b'c' ∷ b't' ∷ [], 0x1b)
    ∷ (b'l' ∷ b'o' ∷ b'c' ∷ b'a' ∷ b'l' ∷ b'.' ∷ b'g' ∷ b'e' ∷ b't' ∷ [], 0x20)
    ∷ (b'l' ∷ b'o' ∷ b'c' ∷ b'a' ∷ b'l' ∷ b'.' ∷ b's' ∷ b'e' ∷ b't' ∷ [], 0x21)
    ∷ (b'l' ∷ b'o' ∷ b'c' ∷ b'a' ∷ b'l' ∷ b'.' ∷ b't' ∷ b'e' ∷ b'e' ∷ [], 0x22)
    ∷ (b'g' ∷ b'l' ∷ b'o' ∷ b'b' ∷ b'a' ∷ b'l' ∷ b'.' ∷ b'g' ∷ b'e' ∷ b't' ∷ [], 0x23)
    ∷ (b'g' ∷ b'l' ∷ b'o' ∷ b'b' ∷ b'a' ∷ b'l' ∷ b'.' ∷ b's' ∷ b'e' ∷ b't' ∷ [], 0x24)
    ∷ []

abbrev pub memory_mnemonics : List (List ℕ × ℕ)
memory_mnemonics =
    (b'i' ∷ b'3' ∷ b'2' ∷ b'.' ∷ b'l' ∷ b'o' ∷ b'a' ∷ b'd' ∷ [], 0x28)
    ∷ (b'i' ∷ b'6' ∷ b'4' ∷ b'.' ∷ b'l' ∷ b'o' ∷ b'a' ∷ b'd' ∷ [], 0x29)
    ∷ (b'f' ∷ b'3' ∷ b'2' ∷ b'.' ∷ b'l' ∷ b'o' ∷ b'a' ∷ b'd' ∷ [], 0x2a)
    ∷ (b'f' ∷ b'6' ∷ b'4' ∷ b'.' ∷ b'l' ∷ b'o' ∷ b'a' ∷ b'd' ∷ [], 0x2b)
    ∷ (b'i' ∷ b'3' ∷ b'2' ∷ b'.' ∷ b'l' ∷ b'o' ∷ b'a' ∷ b'd' ∷ b'8' ∷ b'_' ∷ b's' ∷ [], 0x2c)
    ∷ (b'i' ∷ b'3' ∷ b'2' ∷ b'.' ∷ b'l' ∷ b'o' ∷ b'a' ∷ b'd' ∷ b'8' ∷ b'_' ∷ b'u' ∷ [], 0x2d)
    ∷ (b'i' ∷ b'3' ∷ b'2' ∷ b'.' ∷ b'l' ∷ b'o' ∷ b'a' ∷ b'd' ∷ b'1' ∷ b'6' ∷ b'_' ∷ b's' ∷ [], 0x2e)
    ∷ (b'i' ∷ b'3' ∷ b'2' ∷ b'.' ∷ b'l' ∷ b'o' ∷ b'a' ∷ b'd' ∷ b'1' ∷ b'6' ∷ b'_' ∷ b'u' ∷ [], 0x2f)
    ∷ (b'i' ∷ b'6' ∷ b'4' ∷ b'.' ∷ b'l' ∷ b'o' ∷ b'a' ∷ b'd' ∷ b'8' ∷ b'_' ∷ b's' ∷ [], 0x30)
    ∷ (b'i' ∷ b'6' ∷ b'4' ∷ b'.' ∷ b'l' ∷ b'o' ∷ b'a' ∷ b'd' ∷ b'8' ∷ b'_' ∷ b'u' ∷ [], 0x31)
    ∷ (b'i' ∷ b'6' ∷ b'4' ∷ b'.' ∷ b'l' ∷ b'o' ∷ b'a' ∷ b'd' ∷ b'1' ∷ b'6' ∷ b'_' ∷ b's' ∷ [], 0x32)
    ∷ (b'i' ∷ b'6' ∷ b'4' ∷ b'.' ∷ b'l' ∷ b'o' ∷ b'a' ∷ b'd' ∷ b'1' ∷ b'6' ∷ b'_' ∷ b'u' ∷ [], 0x33)
    ∷ (b'i' ∷ b'6' ∷ b'4' ∷ b'.' ∷ b'l' ∷ b'o' ∷ b'a' ∷ b'd' ∷ b'3' ∷ b'2' ∷ b'_' ∷ b's' ∷ [], 0x34)
    ∷ (b'i' ∷ b'6' ∷ b'4' ∷ b'.' ∷ b'l' ∷ b'o' ∷ b'a' ∷ b'd' ∷ b'3' ∷ b'2' ∷ b'_' ∷ b'u' ∷ [], 0x35)
    ∷ (b'i' ∷ b'3' ∷ b'2' ∷ b'.' ∷ b's' ∷ b't' ∷ b'o' ∷ b'r' ∷ b'e' ∷ [], 0x36)
    ∷ (b'i' ∷ b'6' ∷ b'4' ∷ b'.' ∷ b's' ∷ b't' ∷ b'o' ∷ b'r' ∷ b'e' ∷ [], 0x37)
    ∷ (b'f' ∷ b'3' ∷ b'2' ∷ b'.' ∷ b's' ∷ b't' ∷ b'o' ∷ b'r' ∷ b'e' ∷ [], 0x38)
    ∷ (b'f' ∷ b'6' ∷ b'4' ∷ b'.' ∷ b's' ∷ b't' ∷ b'o' ∷ b'r' ∷ b'e' ∷ [], 0x39)
    ∷ (b'i' ∷ b'3' ∷ b'2' ∷ b'.' ∷ b's' ∷ b't' ∷ b'o' ∷ b'r' ∷ b'e' ∷ b'8' ∷ [], 0x3a)
    ∷ (b'i' ∷ b'3' ∷ b'2' ∷ b'.' ∷ b's' ∷ b't' ∷ b'o' ∷ b'r' ∷ b'e' ∷ b'1' ∷ b'6' ∷ [], 0x3b)
    ∷ (b'i' ∷ b'6' ∷ b'4' ∷ b'.' ∷ b's' ∷ b't' ∷ b'o' ∷ b'r' ∷ b'e' ∷ b'8' ∷ [], 0x3c)
    ∷ (b'i' ∷ b'6' ∷ b'4' ∷ b'.' ∷ b's' ∷ b't' ∷ b'o' ∷ b'r' ∷ b'e' ∷ b'1' ∷ b'6' ∷ [], 0x3d)
    ∷ (b'i' ∷ b'6' ∷ b'4' ∷ b'.' ∷ b's' ∷ b't' ∷ b'o' ∷ b'r' ∷ b'e' ∷ b'3' ∷ b'2' ∷ [], 0x3e)
    ∷ (b'm' ∷ b'e' ∷ b'm' ∷ b'o' ∷ b'r' ∷ b'y' ∷ b'.' ∷ b's' ∷ b'i' ∷ b'z' ∷ b'e' ∷ [], 0x3f)
    ∷ (b'm' ∷ b'e' ∷ b'm' ∷ b'o' ∷ b'r' ∷ b'y' ∷ b'.' ∷ b'g' ∷ b'r' ∷ b'o' ∷ b'w' ∷ [], 0x40)
    ∷ []

abbrev pub const_mnemonics : List (List ℕ × ℕ)
const_mnemonics =
    (b'i' ∷ b'3' ∷ b'2' ∷ b'.' ∷ b'c' ∷ b'o' ∷ b'n' ∷ b's' ∷ b't' ∷ [], 0x41)
    ∷ (b'i' ∷ b'6' ∷ b'4' ∷ b'.' ∷ b'c' ∷ b'o' ∷ b'n' ∷ b's' ∷ b't' ∷ [], 0x42)
    ∷ (b'f' ∷ b'3' ∷ b'2' ∷ b'.' ∷ b'c' ∷ b'o' ∷ b'n' ∷ b's' ∷ b't' ∷ [], 0x43)
    ∷ (b'f' ∷ b'6' ∷ b'4' ∷ b'.' ∷ b'c' ∷ b'o' ∷ b'n' ∷ b's' ∷ b't' ∷ [], 0x44)
    ∷ []

abbrev pub compare_mnemonics : List (List ℕ × ℕ)
compare_mnemonics =
    (b'i' ∷ b'3' ∷ b'2' ∷ b'.' ∷ b'e' ∷ b'q' ∷ b'z' ∷ [], 0x45)
    ∷ (b'i' ∷ b'3' ∷ b'2' ∷ b'.' ∷ b'e' ∷ b'q' ∷ [], 0x46)
    ∷ (b'i' ∷ b'3' ∷ b'2' ∷ b'.' ∷ b'n' ∷ b'e' ∷ [], 0x47)
    ∷ (b'i' ∷ b'3' ∷ b'2' ∷ b'.' ∷ b'l' ∷ b't' ∷ b'_' ∷ b's' ∷ [], 0x48)
    ∷ (b'i' ∷ b'3' ∷ b'2' ∷ b'.' ∷ b'l' ∷ b't' ∷ b'_' ∷ b'u' ∷ [], 0x49)
    ∷ (b'i' ∷ b'3' ∷ b'2' ∷ b'.' ∷ b'g' ∷ b't' ∷ b'_' ∷ b's' ∷ [], 0x4a)
    ∷ (b'i' ∷ b'3' ∷ b'2' ∷ b'.' ∷ b'g' ∷ b't' ∷ b'_' ∷ b'u' ∷ [], 0x4b)
    ∷ (b'i' ∷ b'3' ∷ b'2' ∷ b'.' ∷ b'l' ∷ b'e' ∷ b'_' ∷ b's' ∷ [], 0x4c)
    ∷ (b'i' ∷ b'3' ∷ b'2' ∷ b'.' ∷ b'l' ∷ b'e' ∷ b'_' ∷ b'u' ∷ [], 0x4d)
    ∷ (b'i' ∷ b'3' ∷ b'2' ∷ b'.' ∷ b'g' ∷ b'e' ∷ b'_' ∷ b's' ∷ [], 0x4e)
    ∷ (b'i' ∷ b'3' ∷ b'2' ∷ b'.' ∷ b'g' ∷ b'e' ∷ b'_' ∷ b'u' ∷ [], 0x4f)
    ∷ (b'i' ∷ b'6' ∷ b'4' ∷ b'.' ∷ b'e' ∷ b'q' ∷ b'z' ∷ [], 0x50)
    ∷ (b'i' ∷ b'6' ∷ b'4' ∷ b'.' ∷ b'e' ∷ b'q' ∷ [], 0x51)
    ∷ (b'i' ∷ b'6' ∷ b'4' ∷ b'.' ∷ b'n' ∷ b'e' ∷ [], 0x52)
    ∷ (b'i' ∷ b'6' ∷ b'4' ∷ b'.' ∷ b'l' ∷ b't' ∷ b'_' ∷ b's' ∷ [], 0x53)
    ∷ (b'i' ∷ b'6' ∷ b'4' ∷ b'.' ∷ b'l' ∷ b't' ∷ b'_' ∷ b'u' ∷ [], 0x54)
    ∷ (b'i' ∷ b'6' ∷ b'4' ∷ b'.' ∷ b'g' ∷ b't' ∷ b'_' ∷ b's' ∷ [], 0x55)
    ∷ (b'i' ∷ b'6' ∷ b'4' ∷ b'.' ∷ b'g' ∷ b't' ∷ b'_' ∷ b'u' ∷ [], 0x56)
    ∷ (b'i' ∷ b'6' ∷ b'4' ∷ b'.' ∷ b'l' ∷ b'e' ∷ b'_' ∷ b's' ∷ [], 0x57)
    ∷ (b'i' ∷ b'6' ∷ b'4' ∷ b'.' ∷ b'l' ∷ b'e' ∷ b'_' ∷ b'u' ∷ [], 0x58)
    ∷ (b'i' ∷ b'6' ∷ b'4' ∷ b'.' ∷ b'g' ∷ b'e' ∷ b'_' ∷ b's' ∷ [], 0x59)
    ∷ (b'i' ∷ b'6' ∷ b'4' ∷ b'.' ∷ b'g' ∷ b'e' ∷ b'_' ∷ b'u' ∷ [], 0x5a)
    ∷ (b'f' ∷ b'3' ∷ b'2' ∷ b'.' ∷ b'e' ∷ b'q' ∷ [], 0x5b)
    ∷ (b'f' ∷ b'3' ∷ b'2' ∷ b'.' ∷ b'n' ∷ b'e' ∷ [], 0x5c)
    ∷ (b'f' ∷ b'3' ∷ b'2' ∷ b'.' ∷ b'l' ∷ b't' ∷ [], 0x5d)
    ∷ (b'f' ∷ b'3' ∷ b'2' ∷ b'.' ∷ b'g' ∷ b't' ∷ [], 0x5e)
    ∷ (b'f' ∷ b'3' ∷ b'2' ∷ b'.' ∷ b'l' ∷ b'e' ∷ [], 0x5f)
    ∷ (b'f' ∷ b'3' ∷ b'2' ∷ b'.' ∷ b'g' ∷ b'e' ∷ [], 0x60)
    ∷ (b'f' ∷ b'6' ∷ b'4' ∷ b'.' ∷ b'e' ∷ b'q' ∷ [], 0x61)
    ∷ (b'f' ∷ b'6' ∷ b'4' ∷ b'.' ∷ b'n' ∷ b'e' ∷ [], 0x62)
    ∷ (b'f' ∷ b'6' ∷ b'4' ∷ b'.' ∷ b'l' ∷ b't' ∷ [], 0x63)
    ∷ (b'f' ∷ b'6' ∷ b'4' ∷ b'.' ∷ b'g' ∷ b't' ∷ [], 0x64)
    ∷ (b'f' ∷ b'6' ∷ b'4' ∷ b'.' ∷ b'l' ∷ b'e' ∷ [], 0x65)
    ∷ (b'f' ∷ b'6' ∷ b'4' ∷ b'.' ∷ b'g' ∷ b'e' ∷ [], 0x66)
    ∷ []

abbrev pub int_mnemonics : List (List ℕ × ℕ)
int_mnemonics =
    (b'i' ∷ b'3' ∷ b'2' ∷ b'.' ∷ b'c' ∷ b'l' ∷ b'z' ∷ [], 0x67)
    ∷ (b'i' ∷ b'3' ∷ b'2' ∷ b'.' ∷ b'c' ∷ b't' ∷ b'z' ∷ [], 0x68)
    ∷ (b'i' ∷ b'3' ∷ b'2' ∷ b'.' ∷ b'p' ∷ b'o' ∷ b'p' ∷ b'c' ∷ b'n' ∷ b't' ∷ [], 0x69)
    ∷ (b'i' ∷ b'3' ∷ b'2' ∷ b'.' ∷ b'a' ∷ b'd' ∷ b'd' ∷ [], 0x6a)
    ∷ (b'i' ∷ b'3' ∷ b'2' ∷ b'.' ∷ b's' ∷ b'u' ∷ b'b' ∷ [], 0x6b)
    ∷ (b'i' ∷ b'3' ∷ b'2' ∷ b'.' ∷ b'm' ∷ b'u' ∷ b'l' ∷ [], 0x6c)
    ∷ (b'i' ∷ b'3' ∷ b'2' ∷ b'.' ∷ b'd' ∷ b'i' ∷ b'v' ∷ b'_' ∷ b's' ∷ [], 0x6d)
    ∷ (b'i' ∷ b'3' ∷ b'2' ∷ b'.' ∷ b'd' ∷ b'i' ∷ b'v' ∷ b'_' ∷ b'u' ∷ [], 0x6e)
    ∷ (b'i' ∷ b'3' ∷ b'2' ∷ b'.' ∷ b'r' ∷ b'e' ∷ b'm' ∷ b'_' ∷ b's' ∷ [], 0x6f)
    ∷ (b'i' ∷ b'3' ∷ b'2' ∷ b'.' ∷ b'r' ∷ b'e' ∷ b'm' ∷ b'_' ∷ b'u' ∷ [], 0x70)
    ∷ (b'i' ∷ b'3' ∷ b'2' ∷ b'.' ∷ b'a' ∷ b'n' ∷ b'd' ∷ [], 0x71)
    ∷ (b'i' ∷ b'3' ∷ b'2' ∷ b'.' ∷ b'o' ∷ b'r' ∷ [], 0x72)
    ∷ (b'i' ∷ b'3' ∷ b'2' ∷ b'.' ∷ b'x' ∷ b'o' ∷ b'r' ∷ [], 0x73)
    ∷ (b'i' ∷ b'3' ∷ b'2' ∷ b'.' ∷ b's' ∷ b'h' ∷ b'l' ∷ [], 0x74)
    ∷ (b'i' ∷ b'3' ∷ b'2' ∷ b'.' ∷ b's' ∷ b'h' ∷ b'r' ∷ b'_' ∷ b's' ∷ [], 0x75)
    ∷ (b'i' ∷ b'3' ∷ b'2' ∷ b'.' ∷ b's' ∷ b'h' ∷ b'r' ∷ b'_' ∷ b'u' ∷ [], 0x76)
    ∷ (b'i' ∷ b'3' ∷ b'2' ∷ b'.' ∷ b'r' ∷ b'o' ∷ b't' ∷ b'l' ∷ [], 0x77)
    ∷ (b'i' ∷ b'3' ∷ b'2' ∷ b'.' ∷ b'r' ∷ b'o' ∷ b't' ∷ b'r' ∷ [], 0x78)
    ∷ (b'i' ∷ b'6' ∷ b'4' ∷ b'.' ∷ b'c' ∷ b'l' ∷ b'z' ∷ [], 0x79)
    ∷ (b'i' ∷ b'6' ∷ b'4' ∷ b'.' ∷ b'c' ∷ b't' ∷ b'z' ∷ [], 0x7a)
    ∷ (b'i' ∷ b'6' ∷ b'4' ∷ b'.' ∷ b'p' ∷ b'o' ∷ b'p' ∷ b'c' ∷ b'n' ∷ b't' ∷ [], 0x7b)
    ∷ (b'i' ∷ b'6' ∷ b'4' ∷ b'.' ∷ b'a' ∷ b'd' ∷ b'd' ∷ [], 0x7c)
    ∷ (b'i' ∷ b'6' ∷ b'4' ∷ b'.' ∷ b's' ∷ b'u' ∷ b'b' ∷ [], 0x7d)
    ∷ (b'i' ∷ b'6' ∷ b'4' ∷ b'.' ∷ b'm' ∷ b'u' ∷ b'l' ∷ [], 0x7e)
    ∷ (b'i' ∷ b'6' ∷ b'4' ∷ b'.' ∷ b'd' ∷ b'i' ∷ b'v' ∷ b'_' ∷ b's' ∷ [], 0x7f)
    ∷ (b'i' ∷ b'6' ∷ b'4' ∷ b'.' ∷ b'd' ∷ b'i' ∷ b'v' ∷ b'_' ∷ b'u' ∷ [], 0x80)
    ∷ (b'i' ∷ b'6' ∷ b'4' ∷ b'.' ∷ b'r' ∷ b'e' ∷ b'm' ∷ b'_' ∷ b's' ∷ [], 0x81)
    ∷ (b'i' ∷ b'6' ∷ b'4' ∷ b'.' ∷ b'r' ∷ b'e' ∷ b'm' ∷ b'_' ∷ b'u' ∷ [], 0x82)
    ∷ (b'i' ∷ b'6' ∷ b'4' ∷ b'.' ∷ b'a' ∷ b'n' ∷ b'd' ∷ [], 0x83)
    ∷ (b'i' ∷ b'6' ∷ b'4' ∷ b'.' ∷ b'o' ∷ b'r' ∷ [], 0x84)
    ∷ (b'i' ∷ b'6' ∷ b'4' ∷ b'.' ∷ b'x' ∷ b'o' ∷ b'r' ∷ [], 0x85)
    ∷ (b'i' ∷ b'6' ∷ b'4' ∷ b'.' ∷ b's' ∷ b'h' ∷ b'l' ∷ [], 0x86)
    ∷ (b'i' ∷ b'6' ∷ b'4' ∷ b'.' ∷ b's' ∷ b'h' ∷ b'r' ∷ b'_' ∷ b's' ∷ [], 0x87)
    ∷ (b'i' ∷ b'6' ∷ b'4' ∷ b'.' ∷ b's' ∷ b'h' ∷ b'r' ∷ b'_' ∷ b'u' ∷ [], 0x88)
    ∷ (b'i' ∷ b'6' ∷ b'4' ∷ b'.' ∷ b'r' ∷ b'o' ∷ b't' ∷ b'l' ∷ [], 0x89)
    ∷ (b'i' ∷ b'6' ∷ b'4' ∷ b'.' ∷ b'r' ∷ b'o' ∷ b't' ∷ b'r' ∷ [], 0x8a)
    ∷ []

abbrev pub float_mnemonics : List (List ℕ × ℕ)
float_mnemonics =
    (b'f' ∷ b'3' ∷ b'2' ∷ b'.' ∷ b'a' ∷ b'b' ∷ b's' ∷ [], 0x8b)
    ∷ (b'f' ∷ b'3' ∷ b'2' ∷ b'.' ∷ b'n' ∷ b'e' ∷ b'g' ∷ [], 0x8c)
    ∷ (b'f' ∷ b'3' ∷ b'2' ∷ b'.' ∷ b'c' ∷ b'e' ∷ b'i' ∷ b'l' ∷ [], 0x8d)
    ∷ (b'f' ∷ b'3' ∷ b'2' ∷ b'.' ∷ b'f' ∷ b'l' ∷ b'o' ∷ b'o' ∷ b'r' ∷ [], 0x8e)
    ∷ (b'f' ∷ b'3' ∷ b'2' ∷ b'.' ∷ b't' ∷ b'r' ∷ b'u' ∷ b'n' ∷ b'c' ∷ [], 0x8f)
    ∷ (b'f' ∷ b'3' ∷ b'2' ∷ b'.' ∷ b'n' ∷ b'e' ∷ b'a' ∷ b'r' ∷ b'e' ∷ b's' ∷ b't' ∷ [], 0x90)
    ∷ (b'f' ∷ b'3' ∷ b'2' ∷ b'.' ∷ b's' ∷ b'q' ∷ b'r' ∷ b't' ∷ [], 0x91)
    ∷ (b'f' ∷ b'3' ∷ b'2' ∷ b'.' ∷ b'a' ∷ b'd' ∷ b'd' ∷ [], 0x92)
    ∷ (b'f' ∷ b'3' ∷ b'2' ∷ b'.' ∷ b's' ∷ b'u' ∷ b'b' ∷ [], 0x93)
    ∷ (b'f' ∷ b'3' ∷ b'2' ∷ b'.' ∷ b'm' ∷ b'u' ∷ b'l' ∷ [], 0x94)
    ∷ (b'f' ∷ b'3' ∷ b'2' ∷ b'.' ∷ b'd' ∷ b'i' ∷ b'v' ∷ [], 0x95)
    ∷ (b'f' ∷ b'3' ∷ b'2' ∷ b'.' ∷ b'm' ∷ b'i' ∷ b'n' ∷ [], 0x96)
    ∷ (b'f' ∷ b'3' ∷ b'2' ∷ b'.' ∷ b'm' ∷ b'a' ∷ b'x' ∷ [], 0x97)
    ∷ (b'f' ∷ b'3' ∷ b'2' ∷ b'.' ∷ b'c' ∷ b'o' ∷ b'p' ∷ b'y' ∷ b's' ∷ b'i' ∷ b'g' ∷ b'n' ∷ [], 0x98)
    ∷ (b'f' ∷ b'6' ∷ b'4' ∷ b'.' ∷ b'a' ∷ b'b' ∷ b's' ∷ [], 0x99)
    ∷ (b'f' ∷ b'6' ∷ b'4' ∷ b'.' ∷ b'n' ∷ b'e' ∷ b'g' ∷ [], 0x9a)
    ∷ (b'f' ∷ b'6' ∷ b'4' ∷ b'.' ∷ b'c' ∷ b'e' ∷ b'i' ∷ b'l' ∷ [], 0x9b)
    ∷ (b'f' ∷ b'6' ∷ b'4' ∷ b'.' ∷ b'f' ∷ b'l' ∷ b'o' ∷ b'o' ∷ b'r' ∷ [], 0x9c)
    ∷ (b'f' ∷ b'6' ∷ b'4' ∷ b'.' ∷ b't' ∷ b'r' ∷ b'u' ∷ b'n' ∷ b'c' ∷ [], 0x9d)
    ∷ (b'f' ∷ b'6' ∷ b'4' ∷ b'.' ∷ b'n' ∷ b'e' ∷ b'a' ∷ b'r' ∷ b'e' ∷ b's' ∷ b't' ∷ [], 0x9e)
    ∷ (b'f' ∷ b'6' ∷ b'4' ∷ b'.' ∷ b's' ∷ b'q' ∷ b'r' ∷ b't' ∷ [], 0x9f)
    ∷ (b'f' ∷ b'6' ∷ b'4' ∷ b'.' ∷ b'a' ∷ b'd' ∷ b'd' ∷ [], 0xa0)
    ∷ (b'f' ∷ b'6' ∷ b'4' ∷ b'.' ∷ b's' ∷ b'u' ∷ b'b' ∷ [], 0xa1)
    ∷ (b'f' ∷ b'6' ∷ b'4' ∷ b'.' ∷ b'm' ∷ b'u' ∷ b'l' ∷ [], 0xa2)
    ∷ (b'f' ∷ b'6' ∷ b'4' ∷ b'.' ∷ b'd' ∷ b'i' ∷ b'v' ∷ [], 0xa3)
    ∷ (b'f' ∷ b'6' ∷ b'4' ∷ b'.' ∷ b'm' ∷ b'i' ∷ b'n' ∷ [], 0xa4)
    ∷ (b'f' ∷ b'6' ∷ b'4' ∷ b'.' ∷ b'm' ∷ b'a' ∷ b'x' ∷ [], 0xa5)
    ∷ (b'f' ∷ b'6' ∷ b'4' ∷ b'.' ∷ b'c' ∷ b'o' ∷ b'p' ∷ b'y' ∷ b's' ∷ b'i' ∷ b'g' ∷ b'n' ∷ [], 0xa6)
    ∷ []

abbrev pub convert_mnemonics : List (List ℕ × ℕ)
convert_mnemonics =
    (b'i' ∷ b'3' ∷ b'2' ∷ b'.' ∷ b'w' ∷ b'r' ∷ b'a' ∷ b'p' ∷ b'_' ∷ b'i' ∷ b'6' ∷ b'4' ∷ [], 0xa7)
    ∷ (
      b'i' ∷ b'3' ∷ b'2' ∷ b'.' ∷ b't' ∷ b'r' ∷ b'u' ∷ b'n' ∷ b'c' ∷ b'_' ∷ b'f' ∷ b'3' ∷ b'2'
          ∷ b'_' ∷ b's' ∷ [],
      0xa8,
    )
    ∷ (
      b'i' ∷ b'3' ∷ b'2' ∷ b'.' ∷ b't' ∷ b'r' ∷ b'u' ∷ b'n' ∷ b'c' ∷ b'_' ∷ b'f' ∷ b'3' ∷ b'2'
          ∷ b'_' ∷ b'u' ∷ [],
      0xa9,
    )
    ∷ (
      b'i' ∷ b'3' ∷ b'2' ∷ b'.' ∷ b't' ∷ b'r' ∷ b'u' ∷ b'n' ∷ b'c' ∷ b'_' ∷ b'f' ∷ b'6' ∷ b'4'
          ∷ b'_' ∷ b's' ∷ [],
      0xaa,
    )
    ∷ (
      b'i' ∷ b'3' ∷ b'2' ∷ b'.' ∷ b't' ∷ b'r' ∷ b'u' ∷ b'n' ∷ b'c' ∷ b'_' ∷ b'f' ∷ b'6' ∷ b'4'
          ∷ b'_' ∷ b'u' ∷ [],
      0xab,
    )
    ∷ (
      b'i' ∷ b'6' ∷ b'4' ∷ b'.' ∷ b'e' ∷ b'x' ∷ b't' ∷ b'e' ∷ b'n' ∷ b'd' ∷ b'_' ∷ b'i' ∷ b'3'
          ∷ b'2' ∷ b'_' ∷ b's' ∷ [],
      0xac,
    )
    ∷ (
      b'i' ∷ b'6' ∷ b'4' ∷ b'.' ∷ b'e' ∷ b'x' ∷ b't' ∷ b'e' ∷ b'n' ∷ b'd' ∷ b'_' ∷ b'i' ∷ b'3'
          ∷ b'2' ∷ b'_' ∷ b'u' ∷ [],
      0xad,
    )
    ∷ (
      b'i' ∷ b'6' ∷ b'4' ∷ b'.' ∷ b't' ∷ b'r' ∷ b'u' ∷ b'n' ∷ b'c' ∷ b'_' ∷ b'f' ∷ b'3' ∷ b'2'
          ∷ b'_' ∷ b's' ∷ [],
      0xae,
    )
    ∷ (
      b'i' ∷ b'6' ∷ b'4' ∷ b'.' ∷ b't' ∷ b'r' ∷ b'u' ∷ b'n' ∷ b'c' ∷ b'_' ∷ b'f' ∷ b'3' ∷ b'2'
          ∷ b'_' ∷ b'u' ∷ [],
      0xaf,
    )
    ∷ (
      b'i' ∷ b'6' ∷ b'4' ∷ b'.' ∷ b't' ∷ b'r' ∷ b'u' ∷ b'n' ∷ b'c' ∷ b'_' ∷ b'f' ∷ b'6' ∷ b'4'
          ∷ b'_' ∷ b's' ∷ [],
      0xb0,
    )
    ∷ (
      b'i' ∷ b'6' ∷ b'4' ∷ b'.' ∷ b't' ∷ b'r' ∷ b'u' ∷ b'n' ∷ b'c' ∷ b'_' ∷ b'f' ∷ b'6' ∷ b'4'
          ∷ b'_' ∷ b'u' ∷ [],
      0xb1,
    )
    ∷ (
      b'f' ∷ b'3' ∷ b'2' ∷ b'.' ∷ b'c' ∷ b'o' ∷ b'n' ∷ b'v' ∷ b'e' ∷ b'r' ∷ b't' ∷ b'_' ∷ b'i'
          ∷ b'3' ∷ b'2' ∷ b'_' ∷ b's' ∷ [],
      0xb2,
    )
    ∷ (
      b'f' ∷ b'3' ∷ b'2' ∷ b'.' ∷ b'c' ∷ b'o' ∷ b'n' ∷ b'v' ∷ b'e' ∷ b'r' ∷ b't' ∷ b'_' ∷ b'i'
          ∷ b'3' ∷ b'2' ∷ b'_' ∷ b'u' ∷ [],
      0xb3,
    )
    ∷ (
      b'f' ∷ b'3' ∷ b'2' ∷ b'.' ∷ b'c' ∷ b'o' ∷ b'n' ∷ b'v' ∷ b'e' ∷ b'r' ∷ b't' ∷ b'_' ∷ b'i'
          ∷ b'6' ∷ b'4' ∷ b'_' ∷ b's' ∷ [],
      0xb4,
    )
    ∷ (
      b'f' ∷ b'3' ∷ b'2' ∷ b'.' ∷ b'c' ∷ b'o' ∷ b'n' ∷ b'v' ∷ b'e' ∷ b'r' ∷ b't' ∷ b'_' ∷ b'i'
          ∷ b'6' ∷ b'4' ∷ b'_' ∷ b'u' ∷ [],
      0xb5,
    )
    ∷ (
      b'f' ∷ b'3' ∷ b'2' ∷ b'.' ∷ b'd' ∷ b'e' ∷ b'm' ∷ b'o' ∷ b't' ∷ b'e' ∷ b'_' ∷ b'f' ∷ b'6'
          ∷ b'4' ∷ [],
      0xb6,
    )
    ∷ (
      b'f' ∷ b'6' ∷ b'4' ∷ b'.' ∷ b'c' ∷ b'o' ∷ b'n' ∷ b'v' ∷ b'e' ∷ b'r' ∷ b't' ∷ b'_' ∷ b'i'
          ∷ b'3' ∷ b'2' ∷ b'_' ∷ b's' ∷ [],
      0xb7,
    )
    ∷ (
      b'f' ∷ b'6' ∷ b'4' ∷ b'.' ∷ b'c' ∷ b'o' ∷ b'n' ∷ b'v' ∷ b'e' ∷ b'r' ∷ b't' ∷ b'_' ∷ b'i'
          ∷ b'3' ∷ b'2' ∷ b'_' ∷ b'u' ∷ [],
      0xb8,
    )
    ∷ (
      b'f' ∷ b'6' ∷ b'4' ∷ b'.' ∷ b'c' ∷ b'o' ∷ b'n' ∷ b'v' ∷ b'e' ∷ b'r' ∷ b't' ∷ b'_' ∷ b'i'
          ∷ b'6' ∷ b'4' ∷ b'_' ∷ b's' ∷ [],
      0xb9,
    )
    ∷ (
      b'f' ∷ b'6' ∷ b'4' ∷ b'.' ∷ b'c' ∷ b'o' ∷ b'n' ∷ b'v' ∷ b'e' ∷ b'r' ∷ b't' ∷ b'_' ∷ b'i'
          ∷ b'6' ∷ b'4' ∷ b'_' ∷ b'u' ∷ [],
      0xba,
    )
    ∷ (
      b'f' ∷ b'6' ∷ b'4' ∷ b'.' ∷ b'p' ∷ b'r' ∷ b'o' ∷ b'm' ∷ b'o' ∷ b't' ∷ b'e' ∷ b'_' ∷ b'f'
          ∷ b'3' ∷ b'2' ∷ [],
      0xbb,
    )
    ∷ (
      b'i' ∷ b'3' ∷ b'2' ∷ b'.' ∷ b'r' ∷ b'e' ∷ b'i' ∷ b'n' ∷ b't' ∷ b'e' ∷ b'r' ∷ b'p' ∷ b'r'
          ∷ b'e' ∷ b't' ∷ b'_' ∷ b'f' ∷ b'3' ∷ b'2' ∷ [],
      0xbc,
    )
    ∷ (
      b'i' ∷ b'6' ∷ b'4' ∷ b'.' ∷ b'r' ∷ b'e' ∷ b'i' ∷ b'n' ∷ b't' ∷ b'e' ∷ b'r' ∷ b'p' ∷ b'r'
          ∷ b'e' ∷ b't' ∷ b'_' ∷ b'f' ∷ b'6' ∷ b'4' ∷ [],
      0xbd,
    )
    ∷ (
      b'f' ∷ b'3' ∷ b'2' ∷ b'.' ∷ b'r' ∷ b'e' ∷ b'i' ∷ b'n' ∷ b't' ∷ b'e' ∷ b'r' ∷ b'p' ∷ b'r'
          ∷ b'e' ∷ b't' ∷ b'_' ∷ b'i' ∷ b'3' ∷ b'2' ∷ [],
      0xbe,
    )
    ∷ (
      b'f' ∷ b'6' ∷ b'4' ∷ b'.' ∷ b'r' ∷ b'e' ∷ b'i' ∷ b'n' ∷ b't' ∷ b'e' ∷ b'r' ∷ b'p' ∷ b'r'
          ∷ b'e' ∷ b't' ∷ b'_' ∷ b'i' ∷ b'6' ∷ b'4' ∷ [],
      0xbf,
    )
    ∷ []
