-- ===== src/Storage/Words/Edit.antt =====
-- `ss_apply_word_edit`: what a WRITE_DATA message does to the words of the locked sentence.
use distributed_documentatio.Base.{ℕ, CText, ◌≡◌, List, length, ◌+◌, arith, ◌<◌, none}
use distributed_documentatio.Text.{drop_trailing}
use distributed_documentatio.Storage.Words.{cut_delimiter, split_words, ss_apply_word_edit}

-- The words of the working sentence without its delimiter, and the delimiter.
abbrev pub body_words : CText → List CText
body_words sentence = split_words (cut_delimiter (drop_trailing sentence)).1

abbrev pub delimiter_of : CText → ℕ
delimiter_of sentence = (cut_delimiter (drop_trailing sentence)).0

-- Any larger index is refused.
pub word_edit_refused :
    (sentence : CText) (i : ℕ) (content : CText)
    → length (body_words sentence) + 1 < i
    → ss_apply_word_edit sentence i content ≡ none
unfolding ss_apply_word_edit
word_edit_refused sentence i content h = ground arith
