-- ===== src/ChunkSplitter.antt =====
-- cloudfs/chunk_splitter.h and cloudfs/chunk_splitter.cc: the bytes of a file cut into chunks. The
-- Rabin fingerprints and MD5 are parameters.
pub mod Pieces
use cloud_file_system.Base.{
  ℕ, zero, suc, ◌+◌, ◌-◌, ◌/◌, ◌%◌, ◌≤◌, ◌<◌, ◌≡◌, Bool, List, [], ◌∷◌, ◌++◌, Option, none, some,
  length, take, drop, ltb, ◌==◌, if◌then◌else◌,
}
use cloud_file_system.Base.Outcome.{Outcome, ok, runtime_error, undefined, stuck, ◌>>=◌}
use cloud_file_system.Bytes.{Bytes, Str}
use cloud_file_system.Snapshot.Format.{Chunk}

-- The interface of dedup.h. `segment_next` gives how many bytes it has processed, and whether a new
-- segment starts behind them, or `none` for its error. It processes no more bytes than it is given,
-- and some of them if there are any.
pub record Rabin : Type 1 where
  pub State : Type 0
  pub reset : State → State
  pub segment_next : Bytes → State → Option (ℕ × Bool × State)
  pub segment_next_le :
      (bs : Bytes) (s s' : State) (n : ℕ) (new : Bool)
      → segment_next bs s ≡ some (n, new, s')
      → n ≤ length bs
  pub segment_next_some :
      (bs : Bytes) (s s' : State) (n : ℕ) (new : Bool)
      → segment_next bs s ≡ some (n, new, s')
      → 0 < length bs
      → 0 < n

-- A digest context of OpenSSL: the bytes since `EVP_DigestInit_ex`, or one that
-- `EVP_DigestFinal_ex` has ended, which must be initialised before its next use.
pub data Context : Type 0 where
  updating : Bytes → Context
  finished : Context

pub record Splitter (R : Type 0) : Type 0 where
  pub chunk_start : ℕ
  pub chunk_len : ℕ
  pub rp : R
  pub mdctx : Context

-- `EVP_DigestUpdate`, which refuses a context that is finished. The source does not test that, and goes
-- on.
abbrev pub update : Bytes → Context → Outcome Context
update bs (updating before) = ok (updating (before ++ bs))
update bs finished = ok finished

abbrev hex_digit : ℕ → ℕ
hex_digit n = if ltb n 10 then 48 + n else 87 + n

-- `sprintf(buf, "%02x", c)`.
abbrev pub char_to_hex : ℕ → Str
char_to_hex c = hex_digit (c / 16) ∷ hex_digit (c % 16) ∷ []

unfoldable pub hex : Bytes → Str
hex [] = []
hex (c ∷ cs) = char_to_hex c ++ hex cs

module _ (rabin : Rabin) (md5 : Bytes → Bytes) where
  abbrev pub Splitting : Type 0
  Splitting = Splitter rabin.State

  -- The key of a chunk with these bytes.
  abbrev pub key_of : Bytes → Str
  key_of bs = hex (md5 bs)

  -- `EVP_DigestFinal_ex`, and the key that the constructor of a chunk makes of the digest. What the digest
  -- of a finished context is, is not documented.
  abbrev pub final_key : Context → Outcome Str
  final_key (updating bs) = ok (key_of bs)
  final_key finished = undefined

  unfoldable pub init : ℕ → Splitting → Splitting
  init start s = record {
    chunk_start = start;
    chunk_len = 0;
    rp = rabin.reset s.rp;
    mdctx = updating [];
  }

  -- The part of the loop that makes a chunk, if a new segment starts.
  unfoldable pub end_segment : Bool → Splitting → Outcome (List Chunk × Splitting)
  end_segment new s =
      let ended : Outcome (List Chunk × Splitting) = final_key s.mdctx >>= λ key. ok (
        record { start = s.chunk_start; len = s.chunk_len; key = key } ∷ [],
        record s { chunk_start = s.chunk_start + s.chunk_len; chunk_len = 0; mdctx = updating [] },
      ) in
      if new then ended else ok ([], s)

  -- The loop, for so many rounds at most.
  unfoldable pub split_rounds : ℕ → Bytes → Splitting → Outcome (List Chunk × Splitting)
  split_rounds zero buf s = stuck
  split_rounds (suc fuel) buf s = elim (rabin.segment_next buf s.rp) [
    | none ↦ runtime_error
    | some (n, new, rp) ↦ if n == 0 then ok ([], record s { rp = rp }) else do
      ctx ← update (take n buf) s.mdctx
      let read : Splitting = record s { chunk_len = s.chunk_len + n; rp = rp; mdctx = ctx }
      (here, s1) ← end_segment new read
      let later = split_rounds fuel (drop n buf) s1
      (rest, s2) ← (if length buf - n == 0 then ok ([], s1) else later)
      ok (here ++ rest, s2)
  ]

  -- A round processes a byte at least.
  unfoldable pub get_chunks_next : Bytes → Splitting → Outcome (List Chunk × Splitting)
  get_chunks_next buf s = split_rounds (suc (length buf)) buf s

  -- A chunk of length 0 stands for none.
  unfoldable pub get_chunk_last : Splitting → Outcome (Chunk × Splitting)
  get_chunk_last s =
      let last : Outcome (Chunk × Splitting) = final_key s.mdctx >>= λ key. ok (
        record { start = s.chunk_start; len = s.chunk_len; key = key },
        record s { mdctx = finished },
      ) in
      if s.chunk_len == 0 then ok (record { start = 0; len = 0; key = [] }, s) else last
