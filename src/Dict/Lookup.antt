-- ===== src/Dict/Lookup.antt =====
-- IO/reactor/dict.hpp: looking up a word in a file of translations.
use linux_learning_machine_c.Base.{
  ℕ, suc, ◌≡◌, refl, sym, ◌∙◌, ap, false, some, List, [], ◌∷◌, ◌++◌, append_assoc, Bytes, same,
  same_refl, find_char, substr_from, Lacks, take-length, drop-suc-length, length, arith,
}
use linux_learning_machine_c.Protocol.Frame.{end_mark}
use linux_learning_machine_c.Dict.{Entries, entry_of, load, find_word, pop_back, dict_handle}

entry_of-line :
    (word tran : Bytes) → Lacks b' ' word → entry_of (word ++ b' ' ∷ tran) ≡ (word, tran)
unfolding entry_of
entry_of-line word tran h =
    rw (find_char b' ' word tran h, entry_of)
      (ap (λ w. (w, substr_from (word ++ b' ' ∷ tran) (suc (length word))))
          (take-length word (b' ' ∷ tran))
        ∙ ap (λ t. (word, t)) (drop-suc-length word b' ' tran))

-- The word of a line.
abbrev pub word_of : Bytes → Bytes
word_of line = (entry_of line).0

-- No line is about the word.
abbrev pub IsAbsent : Bytes → List Bytes → Type 0
IsAbsent word [] = Unit
IsAbsent word (l ∷ ls) = (same (word_of l) word ≡ false) × IsAbsent word ls

load-IsAbsent :
    (word : Bytes) (ls : List Bytes) (es : Entries)
    → IsAbsent word ls
    → find_word word (load ls es) ≡ find_word word es
unfolding load find_word
load-IsAbsent word [] es h = refl
load-IsAbsent word (l ∷ ls) es h = load-IsAbsent word ls (entry_of l ∷ es) h.1 ∙ ground (arith, h.0)

load-append : (ls ms : List Bytes) (es : Entries) → load (ls ++ ms) es ≡ load ms (load ls es)
unfolding load
load-append [] ms es = refl
load-append (l ∷ ls) ms es = load-append ls ms (entry_of l ∷ es)

find_word-front : (word tran : Bytes) (es : Entries) → find_word word ((word, tran) ∷ es) ≡ tran
unfolding find_word
find_word-front word tran es = rw (same_refl word)

pop_back-snoc : (s : Bytes) (c : ℕ) → pop_back (s ++ c ∷ []) ≡ some s
pop_back-snoc [] c = refl
pop_back-snoc (d ∷ []) c = refl
pop_back-snoc (d ∷ e ∷ s) c = rw (pop_back-snoc (e ∷ s) c)

pop_end_mark : (word : Bytes) → pop_back (word ++ end_mark) ≡ some (word ++ 13 ∷ [])
pop_end_mark word =
    ap pop_back (sym (append_assoc word (13 ∷ []) (10 ∷ []))) ∙ pop_back-snoc (word ++ 13 ∷ []) 10

-- A client that sends a word and the end of a line is answered with the translation on the last line
-- of the file that is about the word, whatever stands before that line.
pub dict_handle-load :
    (word tran out : Bytes) (before after : List Bytes)
    → Lacks b' ' word
    → IsAbsent word after
    → dict_handle (load (before ++ (word ++ b' ' ∷ tran) ∷ after) []) (word ++ end_mark) out
      ≡ some ([], tran)
unfolding dict_handle load
dict_handle-load word tran out before after h absent =
    rw (pop_end_mark word, pop_back-snoc word 13, dict_handle)
      (ap (λ t. some ([], t))
        (ap (find_word word) (load-append before ((word ++ b' ' ∷ tran) ∷ after) [])
          ∙ load-IsAbsent word after (entry_of (word ++ b' ' ∷ tran) ∷ load before []) absent
          ∙ ap (λ e. find_word word (e ∷ load before [])) (entry_of-line word tran h)
          ∙ find_word-front word tran (load before [])))
