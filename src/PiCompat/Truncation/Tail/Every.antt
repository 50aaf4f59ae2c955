-- ===== src/PiCompat/Truncation/Tail/Every.antt =====
-- `truncate_tail` of src/millforge/tools/pi_compat/truncation.py as a whole.
use millforge.Prelude.{
  ℕ, ◌≤◌, ◌<◌, List, [], length, true, false, some, ◌≡◌, refl, ap, ◌⊎◌, inl, inr, arith,
}
use mathlib.Core.Path.{subst}
use mathlib.Core.Option
use millforge.PiCompat.Truncation.{
  Text, TruncationResult, join_lines, sanitize_text, split_lines_for_counting, unchanged_result,
  utf8_bytes,
}
use millforge.PiCompat.Truncation.Sanitize.{sanitize_text-Replaced}
use millforge.PiCompat.Truncation.Tail.Clean.{
  rev_append-AllClean, split_lines_for_counting-AllClean,
}
use millforge.PiCompat.Truncation.Total.{within_limits}
use millforge.PiCompat.Truncation.Tail.{KeptTail, rev_append, tail_result, truncate_tail}
use millforge.PiCompat.Truncation.Tail.Lines.{TailKept, keep_tail-Gives, rev_append_back}

-- The text, or what is kept from its end, with what was counted.
pub data TailShape (text : Text) (lines : List Text) (max_lines max_bytes : ℕ)
    (r : TruncationResult) : Type 0 where
  whole :
      r.truncated ≡ false
      → r.content ≡ text
      → r.output_lines ≡ length lines
      → r.output_lines ≤ max_lines
      → utf8_bytes r.content ≤ max_bytes
      → TailShape text lines max_lines max_bytes r
  tail :
      (k : KeptTail)
      → r.truncated ≡ true
      → (max_lines < length lines) ⊎ (max_bytes < utf8_bytes text)
      → r.content ≡ join_lines k.output_lines
      → r.output_lines ≡ length k.output_lines
      → r.last_line_partial ≡ k.last_line_partial
      → TailKept max_lines max_bytes lines k
      → TailShape text lines max_lines max_bytes r

pub record TailTruncation (text : Text) (lines : List Text) (max_lines max_bytes : ℕ)
    (r : TruncationResult) : Type 0 where
  pub shape : TailShape text lines max_lines max_bytes r
  pub output_bytes : r.output_bytes ≡ utf8_bytes r.content
  pub total_lines : r.total_lines ≡ length lines
  pub total_bytes : r.total_bytes ≡ utf8_bytes text

module _ (text : Text) (lines : List Text) (max_lines max_bytes : ℕ) where
  tail_result-TailTruncation :
      (k : KeptTail)
      → (max_lines < length lines) ⊎ (max_bytes < utf8_bytes text)
      → TailKept max_lines max_bytes lines k
      → TailTruncation text lines max_lines max_bytes
          (tail_result (length lines) (utf8_bytes text) max_lines max_bytes k)
  unfolding tail_result
  tail_result-TailTruncation k exceeds kept = record {
    shape = TailShape.tail k refl exceeds refl refl refl kept;
    output_bytes = refl;
    total_lines = refl;
    total_bytes = refl;
  }

-- `truncate_tail` gives a result for every text and every limits, with no error of the encoder or
-- the decoder. It is the sanitized text, not truncated, where that fits both limits. Else it is
-- the last lines of the text, joined: they fit both limits, and either no line is left, or the
-- limit of lines is reached, or one more line would exceed the limit of bytes. Where the last line
-- alone exceeds that limit, it is the last characters of that line instead, as many as fit. Its
-- counts are those of the content and of the text.
pub truncate_tail-TailTruncation :
    (content : Text) (max_lines max_bytes : ℕ)
    → let text = sanitize_text content in
      let lines = split_lines_for_counting text in
      (r : TruncationResult) × (truncate_tail content max_lines max_bytes ≡ some r)
      × TailTruncation text lines max_lines max_bytes r
unfolding truncate_tail unchanged_result join_lines utf8_bytes
truncate_tail-TailTruncation content max_lines max_bytes =
    let text = sanitize_text content in
    let lines = split_lines_for_counting text in
    elim (within_limits (length lines) max_lines (utf8_bytes text) max_bytes) [
      | inl (h, few, small) ↦ (
        unchanged_result text (length lines) (utf8_bytes text) max_lines max_bytes,
        rw h refl,
        record {
          shape = TailShape.whole refl refl refl few small;
          output_bytes = refl;
          total_lines = refl;
          total_bytes = refl;
        },
      )
      | inr (h, exceeds) ↦
          let (k, e, kept) =
            keep_tail-Gives max_lines max_bytes [] 0 (rev_append lines []) refl (omega arith)
              (omega arith)
              (rev_append-AllClean lines []
                (split_lines_for_counting-AllClean text (sanitize_text-Replaced content).0) refl) in
          (
            tail_result (length lines) (utf8_bytes text) max_lines max_bytes k,
            rw h (
                ap (Option.map (tail_result (length lines) (utf8_bytes text) max_lines max_bytes))
                  e),
            tail_result-TailTruncation text lines max_lines max_bytes k exceeds
                (subst (λ all. TailKept max_lines max_bytes all k) (rev_append_back lines) kept),
          )
    ]
