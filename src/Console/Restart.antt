-- ===== src/Console/Restart.antt =====
-- What the next start of the client reads of the history that the last one left.
use necroauth.Prelude.{
  ℕ, ◌<◌, ◌≡◌, ◌==◌, true, false, Bool-cases, leb, if◌then◌else◌, inl, inr, List, [], ◌∷◌, ◌++◌,
  append_assoc, append-nil, length, some, refl, ap, ◌∙◌, sym, arith,
}
use necroauth.Console.{Console}
use necroauth.Console.Text.{push}
use necroauth.Console.Command.{codes}
use necroauth.Console.File.{read_lines, load_history, c_str, write_history, shutdown}
use necroauth.Server.Session.{bytes_eq}

-- A line that a file can hold: no line feed, no zero byte.
abbrev pub IsClean : List ℕ → Type 0
IsClean [] = Unit {0}
IsClean (b ∷ bs) = ((b == 10) ≡ false) × ((b == 0) ≡ false) × IsClean bs

-- A history of clean lines that are not empty.
abbrev pub AreLines : List (List ℕ) → Type 0
AreLines [] = Unit {0}
AreLines (l ∷ ls) = (0 < length l) × IsClean l × AreLines ls

-- The commands that are written.
abbrev pub kept : List (List ℕ) → List (List ℕ)
kept [] = []
kept (l ∷ ls) = if bytes_eq l (codes "qqq") then kept ls else l ∷ kept ls

c_str_clean : (l : List ℕ) → IsClean l → c_str l ≡ l
c_str_clean [] h = refl
c_str_clean (b ∷ bs) (_, z, h) = rw (z, c_str_clean bs h)

read_lines_clean :
    (line l rest : List ℕ)
    → IsClean l
    → read_lines line (l ++ 10 ∷ rest) ≡ push (line ++ l) (read_lines [] rest)
unfolding read_lines
read_lines_clean line [] rest h = ap (λ l. push l (read_lines [] rest)) (sym (append-nil line))
read_lines_clean line (b ∷ bs) rest (n, _, h) = rw n (
    read_lines_clean (line ++ b ∷ []) bs rest h
    ∙ ap (λ l. push l (read_lines [] rest)) (append_assoc line (b ∷ []) bs))

push_some : (l : List ℕ) (rest : List (List ℕ)) → 0 < length l → push l rest ≡ l ∷ rest
push_some [] rest h = absurd (omega arith)
push_some (b ∷ bs) rest h = refl

read_lines-write_history :
    (h : List (List ℕ)) → AreLines h → read_lines [] (write_history h) ≡ kept h
unfolding read_lines write_history
read_lines-write_history [] a = refl
read_lines-write_history (l ∷ ls) (some_l, clean, a) =
    elim (Bool-cases (bytes_eq l (codes "qqq"))) [
      | inl skip ↦ rw skip (read_lines-write_history ls a)
      | inr other ↦
          rw (other, c_str_clean l clean)
            (read_lines_clean [] l (write_history ls) clean
              ∙ push_some l (read_lines [] (write_history ls)) some_l
              ∙ ap (λ ls. l ∷ ls) (read_lines-write_history ls a))
    ]

-- What is appended to a file of whole lines is read after them.
write_history-append :
    (g h : List (List ℕ)) → write_history g ++ write_history h ≡ write_history (g ++ h)
unfolding write_history
write_history-append [] h = refl
write_history-append (l ∷ ls) h = elim (Bool-cases (bytes_eq l (codes "qqq"))) [
  | inl skip ↦ rw skip (write_history-append ls h)
  | inr other ↦ rw other (
      append_assoc (c_str l) (10 ∷ write_history ls) (write_history h)
      ∙ ap (λ bs. c_str l ++ 10 ∷ bs) (write_history-append ls h))
]

AreLines-append : (g h : List (List ℕ)) → AreLines g → AreLines h → AreLines (g ++ h)
AreLines-append [] h a b = b
AreLines-append (l ∷ ls) h (n, clean, a) b = (n, clean, AreLines-append ls h a b)

kept-append : (g h : List (List ℕ)) → kept (g ++ h) ≡ kept g ++ kept h
kept-append [] h = refl
kept-append (l ∷ ls) h = elim (Bool-cases (bytes_eq l (codes "qqq"))) [
  | inl skip ↦ rw skip (kept-append ls h)
  | inr other ↦ rw other (ap (λ ls. l ∷ ls) (kept-append ls h))
]

-- The file of an earlier history is there and can be written, and the lines of both histories are
-- not empty and without line feeds and zero bytes. Then what `Shutdown` writes is read by the next
-- start, all but the commands "qqq": the history of the console if that has at least 32 commands,
-- and otherwise the earlier history before it.
pub shutdown-load_history :
    (c : Console) (g : List (List ℕ))
    → AreLines g
    → AreLines c.history
    → load_history (shutdown true (some (write_history g)) c).0
      ≡ (if leb 32 (length c.history) then kept c.history else kept g ++ kept c.history)
unfolding load_history shutdown
shutdown-load_history c g a b = elim (Bool-cases (leb 32 (length c.history))) [
  | inl long ↦ rw long (read_lines-write_history c.history b)
  | inr short ↦ rw short (
      ap (λ bs. read_lines [] bs) (write_history-append g c.history)
      ∙ read_lines-write_history (g ++ c.history) (AreLines-append g c.history a b)
      ∙ kept-append g c.history)
]
