-- ===== src/Reconcile/Decode.antt =====
-- `decode_windows_1252`: the bytes of an export as text.
use openqbw.Base.{
  ℕ, ◌+◌, ◌-◌, ◌*◌, ◌&&◌, List, [], ◌∷◌, map, Option, none, some, leb, ltb, ◌==◌, if◌then◌else◌,
}
use openqbw.Base.Text.{Text}

-- `str::from_utf8`, as an automaton: how many continuation bytes are still due, the bits read so
-- far, and the bounds of the next byte.
pub record Utf8 : Type 0 where
  pub due : ℕ
  pub value : ℕ
  pub low : ℕ
  pub high : ℕ

abbrev pub between : Utf8
between = record { due = 0; value = 0; low = 0x80; high = 0xbf }

abbrev pub lead : ℕ → ℕ → ℕ → ℕ → Option Utf8
lead due value low high = some (record { due = due; value = value; low = low; high = high })

-- The state after a first byte of a sequence of two bytes or more.
abbrev pub utf8_lead : ℕ → Option Utf8
utf8_lead b =
    if leb 0xc2 b && leb b 0xdf
    then lead 1 (b - 0xc0) 0x80 0xbf
    else if b == 0xe0
    then lead 2 0 0xa0 0xbf
    else if b == 0xed
    then lead 2 0xd 0x80 0x9f
    else if leb 0xe1 b && leb b 0xef
    then lead 2 (b - 0xe0) 0x80 0xbf
    else if b == 0xf0
    then lead 3 0 0x90 0xbf
    else if leb 0xf1 b && leb b 0xf3
    then lead 3 (b - 0xf0) 0x80 0xbf
    else if b == 0xf4
    then lead 3 4 0x80 0x8f
    else none

abbrev pub prepend : ℕ → Option Text → Option Text
prepend c none = none
prepend c (some s) = some (c ∷ s)

-- The state after a byte, with the character that it completes.
abbrev pub utf8_step : Utf8 → ℕ → Option (Utf8 × Option ℕ)
utf8_step s b =
    let value = s.value * 64 + (b - 0x80) in
    if s.due == 0
    then if ltb b 0x80
      then some (between, some b)
      else elim (utf8_lead b) [ none ↦ none | some t ↦ some (t, none) ]
    else if leb s.low b && leb b s.high
    then if s.due == 1
      then some (between, some value)
      else some (record { due = s.due - 1; value = value; low = 0x80; high = 0xbf }, none)
    else none

unfoldable pub utf8 : Utf8 → List ℕ → Option Text
utf8 s [] = if s.due == 0 then some [] else none
utf8 s (b ∷ rest) = elim (utf8_step s b) [
  | none ↦ none
  | some (t, none) ↦ utf8 t rest
  | some (t, some c) ↦ prepend c (utf8 t rest)
]

-- The characters that Windows-1252 has in place of control codes.
unfoldable pub windows_1252 : ℕ → ℕ
windows_1252 byte =
    if byte == 0x80
    then 0x20ac
    else if byte == 0x82
    then 0x201a
    else if byte == 0x83
    then 0x0192
    else if byte == 0x84
    then 0x201e
    else if byte == 0x85
    then 0x2026
    else if byte == 0x86
    then 0x2020
    else if byte == 0x87
    then 0x2021
    else if byte == 0x88
    then 0x02c6
    else if byte == 0x89
    then 0x2030
    else if byte == 0x8a
    then 0x0160
    else if byte == 0x8b
    then 0x2039
    else if byte == 0x8c
    then 0x0152
    else if byte == 0x8e
    then 0x017d
    else if byte == 0x91
    then 0x2018
    else if byte == 0x92
    then 0x2019
    else if byte == 0x93
    then 0x201c
    else if byte == 0x94
    then 0x201d
    else if byte == 0x95
    then 0x2022
    else if byte == 0x96
    then 0x2013
    else if byte == 0x97
    then 0x2014
    else if byte == 0x98
    then 0x02dc
    else if byte == 0x99
    then 0x2122
    else if byte == 0x9a
    then 0x0161
    else if byte == 0x9b
    then 0x203a
    else if byte == 0x9c
    then 0x0153
    else if byte == 0x9e
    then 0x017e
    else if byte == 0x9f
    then 0x0178
    else byte

unfoldable pub decode_windows_1252 : List ℕ → Text
unfolding utf8 windows_1252
decode_windows_1252 bytes = elim (utf8 between bytes) [
  | some text ↦ text
  | none ↦ map windows_1252 bytes
]
