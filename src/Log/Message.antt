-- ===== src/Log/Message.antt =====
-- src/utils/log.c, `_log`, up to the flush: how a message is put together in the buffer. The texts
-- that `sprintf`, `localtime` and `vsnprintf` make are given; where `vsnprintf` puts them is not.
use video_player_core.Base.{
  ℕ, ◌-◌, Option, some, List, [], ◌∷◌, ◌++◌, if◌then◌else◌, leb, length, take,
}
use video_player_core.Log.Buffer.{Buffer, return_buffer, write_at, get_buffer, push, ◌>>=◌}

-- The arguments of `_log`, with its time, line and thread as texts.
pub record Entry : Type 0 where
  pub time : List ℕ
  pub label : List ℕ
  pub file : List ℕ
  pub line : List ℕ
  pub thread : List ℕ
  pub func_name : List ℕ
  pub text : List ℕ

abbrev pub space : List ℕ
space = 32 ∷ []

abbrev pub colon : List ℕ
colon = 58 ∷ []

abbrev pub less : List ℕ
less = 60 ∷ []

abbrev pub greater : List ℕ
greater = 62 ∷ 32 ∷ []

abbrev pub line_end : List ℕ
line_end = 13 ∷ 10 ∷ []

-- Everything before the text.
abbrev pub pieces : Entry → List (List ℕ)
pieces e =
    e.time ∷ space ∷ e.label ∷ space ∷ e.file ∷ colon ∷ e.line ∷ space ∷ less ∷ e.thread ∷ greater
    ∷ e.func_name ∷ space ∷ []

-- What `vsnprintf` writes to a buffer of `suc n` bytes.
abbrev pub vsnprintf : ℕ → List ℕ → List ℕ
vsnprintf n text = take n text ++ 0 ∷ []

module _ (junk : ℕ) where
  unfoldable pub push_all : List (List ℕ) → Buffer → Option Buffer
  push_all [] b = some b
  push_all (xs ∷ xss) b = do b' ← push junk xs b; push_all xss b'

  -- The rest of a text that did not fit. It is formatted anew from arguments that were read once
  -- already, of which C says nothing; here they give the same text.
  unfoldable pub put_rest : List ℕ → Buffer → Option Buffer
  put_rest text b =
      let (buf, b') = get_buffer junk (length text - 512) b in
      write_at buf (vsnprintf (length text) text) b'

  -- The formatted text
  unfoldable pub put_text : List ℕ → Buffer → Option Buffer
  put_text text b = do
    let (buf, b') = get_buffer junk 512 b
    b'' ← write_at buf (vsnprintf 511 text) b'
    if leb (length text) 512
        then some (return_buffer (512 - length text) b'')
        else put_rest text b''

  -- The whole line
  unfoldable pub put_line : Entry → Buffer → Option Buffer
  put_line e b = do b1 ← push_all (pieces e) b; b2 ← put_text e.text b1; push junk line_end b2
