-- ===== src/Events/Utf8/Pieces.antt =====
-- That the text of an output does not depend on how its bytes arrive.
use qingzhou_ssh.Prelude.{
  ℕ, suc, ◌≤◌, ◌≡◌, refl, sym, ap, subst, ◌∙◌, true, false, List, [], ◌∷◌, ◌++◌, length, All,
  All-append, arith,
}
use qingzhou_ssh.Prelude.Text.{byte_len}
use qingzhou_ssh.Prelude.Result.{ok}
use qingzhou_ssh.Events.{split_utf8}
use qingzhou_ssh.Events.Split.{
  append_nil, append_assoc, joined, Parted, done, part, split_utf8-Parted,
}
use qingzhou_ssh.Events.Utf8.{
  Utf8Chunker, new_chunker, drained, push_bytes, finish_chunker, drain_decodable,
}
use qingzhou_ssh.Events.Utf8.Reads.{Reads, Reads-append}
use qingzhou_ssh.Events.Utf8.Drain.{closing, Drained, drain_decodable-Drained}

-- All that an output gives: the parts of each piece of bytes, and those of the end.
unfoldable pub output : Utf8Chunker → List (List ℕ) → List (List ℕ)
output c [] = (finish_chunker c).1
output c (piece ∷ pieces) = (push_bytes c piece).1 ++ output (push_bytes c piece).0 pieces

abbrev Fits : ℕ → List ℕ → Type 0
Fits max_bytes p = byte_len p ≤ max_bytes

Parted-Fits :
    (max_bytes : ℕ) (parts : List (List ℕ)) → Parted max_bytes parts → All (Fits max_bytes) parts
Parted-Fits max_bytes _ done = tt
Parted-Fits max_bytes _ (part some_bytes fit room rest) = (fit, Parted-Fits max_bytes _ rest)

joined-append : (ps qs : List (List ℕ)) → joined (ps ++ qs) ≡ (joined ps ++ joined qs)
joined-append [] qs = refl
joined-append (p ∷ ps) qs =
    ap (λ l. p ++ l) (joined-append ps qs) ∙ sym (append_assoc p (joined ps) (joined qs))

-- The parts fit, and joined they are what the bytes read as.
pub record Shows (max_bytes : ℕ) (bytes : List ℕ) (parts : List (List ℕ)) : Type 0 where
  pub text : List ℕ
  pub left : List ℕ
  pub reads : Reads bytes text left
  pub whole_text : joined parts ≡ (text ++ closing left)
  pub all_fit : All (λ p. byte_len p ≤ max_bytes) parts

pushed-Shows :
    (c : Utf8Chunker) (piece later : List ℕ) (parts : List (List ℕ))
    (d : Drained false
      (c.pending ++ piece)
      (drain_decodable (suc (length (c.pending ++ piece))) false (c.pending ++ piece)))
    → 4 ≤ c.max_bytes
    → Shows c.max_bytes (d.left ++ later) parts
    → Shows c.max_bytes (c.pending ++ (piece ++ later)) (
        (drained c
          (drain_decodable (suc (length (c.pending ++ piece))) false (c.pending ++ piece))).1
        ++ parts)
pushed-Shows c piece later parts d wide s =
    subst (λ a. Shows c.max_bytes (c.pending ++ (piece ++ later)) ((drained c a).1 ++ parts))
      (sym d.is)
      (record {
        text = d.text ++ s.text;
        left = s.left;
        reads =
            subst (λ b. Reads b (d.text ++ s.text) s.left) (append_assoc c.pending piece later)
              (Reads-append later d.reads s.reads);
        whole_text =
            joined-append (split_utf8 c.max_bytes d.text) parts
            ∙ ap (λ l. l ++ joined parts) (split_utf8-Parted c.max_bytes d.text wide).0
            ∙ ap (λ l. d.text ++ l) s.whole_text
            ∙ sym (append_assoc d.text s.text (closing s.left));
        all_fit =
            All-append (Fits c.max_bytes) (split_utf8 c.max_bytes d.text) parts
              (Parted-Fits c.max_bytes _ (split_utf8-Parted c.max_bytes d.text wide).1) s.all_fit;
      })

finished-Shows :
    (c : Utf8Chunker) → 4 ≤ c.max_bytes → Shows c.max_bytes c.pending (finish_chunker c).1
unfolding finish_chunker
finished-Shows c wide =
    let d = drain_decodable-Drained (suc (length c.pending)) true c.pending (omega arith) in
    subst (λ a. Shows c.max_bytes c.pending (drained c a).1) (sym d.is)
      (record {
        text = d.text;
        left = d.left;
        reads = d.reads;
        whole_text = (split_utf8-Parted c.max_bytes (d.text ++ closing d.left) wide).0;
        all_fit =
            Parted-Fits c.max_bytes _
              (split_utf8-Parted c.max_bytes (d.text ++ closing d.left) wide).1;
      })

output_from-Shows :
    (c : Utf8Chunker) (pieces : List (List ℕ))
    → 4 ≤ c.max_bytes
    → Shows c.max_bytes (c.pending ++ joined pieces) (output c pieces)
unfolding output push_bytes
output_from-Shows c [] wide =
    subst (λ b. Shows c.max_bytes b (finish_chunker c).1) (sym (append_nil c.pending))
      (finished-Shows c wide)
output_from-Shows c (piece ∷ pieces) wide =
    let d =
      drain_decodable-Drained (suc (length (c.pending ++ piece))) false (c.pending ++ piece)
        (omega arith) in
    pushed-Shows c piece (joined pieces) _ d wide (
      subst (λ a. Shows c.max_bytes (a.1 ++ joined pieces) (output (push_bytes c piece).0 pieces))
        d.is (output_from-Shows (push_bytes c piece).0 pieces wide))

-- However the bytes of an output are cut into pieces, the parts that a new chunker gives for them,
-- joined, are the text that the bytes read as, character by character: a wrong sequence, and a character
-- that is not complete at the end, read as U+FFFD. No part is above the limit.
pub output-Shows :
    (max_bytes : ℕ) (c : Utf8Chunker) (pieces : List (List ℕ))
    → new_chunker max_bytes ≡ ok c
    → Shows max_bytes (joined pieces) (output c pieces)
unfolding new_chunker
output-Shows max_bytes c pieces h =
    let fine : 4 ≤ max_bytes = ground arith in
    subst (λ d. Shows max_bytes (joined pieces) (output d pieces)) (ground arith)
      (output_from-Shows (record { max_bytes = max_bytes; pending = [] }) pieces fine)
