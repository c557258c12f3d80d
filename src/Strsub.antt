-- ===== src/Strsub.antt =====
-- src/common/strsub.c and include/qoraal/common/strsub.h: text in which the words between tokens are
-- replaced. A text is a list of characters that ends where `len` does. The default instance (NULL) is
-- an instance like any other. The pairs of tokens that the code tests for are all there.
pub mod Buffer
pub mod Keeps
pub mod Bounds
pub mod Plain
mod Tests
use qoraal.Base.{
  ℕ, zero, suc, ◌+◌, ◌-◌, ◌%◌, Bool, true, false, ◌&&◌, ◌||◌, not, Option, none, some, List, [],
  ◌∷◌, ◌++◌, ltb, leb, ◌==◌, if◌then◌else◌, has, erase, length, ℤ, pos, negsuc, ◌<ℤ?◌,
}
use qoraal.Tasks.{word, update}

-- `strsub_token_t`
pub data State : Type 0 where
  dull : State
  esc : State
  token : (i : ℕ) → State

-- `StrsubLast`
abbrev pub last : ℕ
last = 3

-- `STRSUB_INSTANCE_T`: an escape of 0 is none; a pair of tokens is its opening and its closing
-- character; the handlers of a pair by their addresses.
pub record Instance : Type 0 where
  pub escape : ℕ
  pub tokens : ℕ → ℕ × ℕ
  pub handlers : ℕ → List ℕ

-- `strsub_install_handler`, for a token that is not negative. The callback belongs to the handler.
unfoldable pub install_handler : Instance → (t handler : ℕ) → Instance × Bool
install_handler s t handler =
    if ltb t last
    then (if has handler (s.handlers t)
        then (s, true)
        else (record s { handlers = update s.handlers t (handler ∷ s.handlers t) }, true))
    else (s, false)

-- `strsub_uninstall_handler`, for a token below `StrsubLast`
unfoldable pub uninstall_handler : Instance → (t handler : ℕ) → Instance
uninstall_handler s t handler = record s {
  handlers = update s.handlers t (erase handler (s.handlers t));
}

-- The replacement callback and those of the handlers, which hand their text to the first. `Sink` is
-- what `arg` stands for. A result is a length, or negative.
pub record Callbacks (Sink : Type 0) : Type 0 where
  pub cb : (text : List ℕ) (offset : ℕ) → Sink → Sink × ℤ
  pub lookup : (handler : ℕ) (text : List ℕ) (offset : ℕ) → Sink → Sink × ℤ

-- The variables of `strsub_parse`: `text` is what stands from `start_of_word` to `p`, and `tokens` the
-- number of words replaced.
pub record Parser (Sink : Type 0) : Type 0 where
  pub sink : Sink
  pub state : State
  pub offset : ℕ
  pub res : ℤ
  pub text : List ℕ
  pub tokens : ℕ

-- `if (res > 0) offset += res`
abbrev pub advance : ℕ → ℤ → ℕ
advance offset (pos n) = (offset + n) % word
advance offset (negsuc n) = offset

-- The search for a pair of tokens that opens with a character, from the index `i` on
unfoldable pub open_token : Instance → (c n i : ℕ) → Option ℕ
open_token s c zero i = none
open_token s c (suc n) i =
    if not (length (s.handlers i) == 0) && c == (s.tokens i).0
    then some i
    else open_token s c n (i + 1)

module _ {Sink : Type 0} (s : Instance) (k : Callbacks Sink) where
  -- A call of `cb` whose result moves the offset on.
  unfoldable pub emit : Parser Sink → List ℕ → Parser Sink
  emit p text =
      let (sink, res) = k.cb text p.offset p.sink in
      record p { sink = sink; res = res; offset = advance p.offset res }

  -- The loop over the handlers of a word: whether one took it
  unfoldable pub replace : Parser Sink → List ℕ → Parser Sink × Bool
  replace p [] = (p, false)
  replace p (h ∷ hs) =
      let (sink, res) = k.lookup h p.text p.offset p.sink in
      let rest = replace (record p { sink = sink; res = res }) hs in
      if res <ℤ? pos 0 then rest else (
        record p {
          sink = sink;
          res = res;
          offset = advance p.offset res;
          tokens = (p.tokens + 1) % word;
        },
        true,
      )

  -- The case of the tokens: a character behind an opening token of the pair `i`
  unfoldable pub in_token : Parser Sink → (i c : ℕ) → Parser Sink
  in_token p i c =
      let (p', found) = replace p (s.handlers i) in
      if c == (s.tokens i).1
      then (if found
          then record p' { state = dull }
          else record (emit p' ((s.tokens i).0 ∷ p'.text ++ (c ∷ []))) { state = dull })
      else record p { text = p.text ++ (c ∷ []) }

  -- The case of `StrsubDull` behind the search for an opening token
  unfoldable pub plain_or_open : Parser Sink → (c : ℕ) → Option ℕ → Parser Sink
  plain_or_open p c (some i) = record p { state = token i; text = [] }
  plain_or_open p c none = emit p (c ∷ [])

  -- The case of `StrsubDull`
  unfoldable pub in_dull : Parser Sink → (c : ℕ) → Parser Sink
  in_dull p c =
      if not (s.escape == 0) && c == s.escape
      then record p { state = esc }
      else plain_or_open p c (open_token s c last 0)

  -- The switch of `strsub_parse`
  unfoldable pub step : Parser Sink → State → (c : ℕ) → Parser Sink
  step p dull c = in_dull p c
  step p esc c = record (emit p (c ∷ [])) { state = dull }
  step p (token i) c = in_token p i c

  -- The loop of `strsub_parse`
  unfoldable pub parse_from : Parser Sink → List ℕ → Parser Sink
  parse_from p [] = p
  parse_from p (c ∷ cs) =
      let rest = parse_from (step p p.state c) cs in if (p.res <ℤ? pos 0) || c == 0 then p else rest

  -- `strsub_parse`: the sink, the offset and the number of words replaced
  unfoldable pub parse : Sink → List ℕ → Sink × ℕ × ℕ
  parse sink text =
      let start : Parser Sink = record {
        sink = sink;
        state = dull;
        offset = 0;
        res = pos 0;
        text = [];
        tokens = 0;
      } in
      let p = parse_from start text in
      let sink' = if p.res <ℤ? pos 0 then p.sink else (k.cb (0 ∷ []) p.offset p.sink).0 in
      (sink', p.offset, p.tokens)
