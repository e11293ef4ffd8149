-- ===== src/Offload/Callbacks.antt =====
-- The completion callbacks (shoc/progress_engine.hpp, shoc/compress.hpp, shoc/rdma.cpp,
-- shoc/comch/consumer.cpp). Each has the receptable that its task's user data point to.
use shoc.Base.{
  ℕ, Bool, true, false, Option, none, some, List, [], ◌∷◌, ◌++◌, length, leb, if◌then◌else◌,
}
use shoc.Doca.{DocaError}
use shoc.Error.{Outcome, ok}
use shoc.Coro.{Receptable, set_value, emplace_value, overwrite, resume}

-- What a callback does besides writing its results, in order: reads of the task and its release, and
-- the waiting coroutine, which is resumed or posted to the engine's executor.
pub data Effect : Type 0 where
  reads_task frees_task : Effect
  resumes posts : Option ℕ → Effect

unfoldable pub plain_status_callback :
    Bool → DocaError → Receptable DocaError → Receptable DocaError × List Effect
unfolding set_value resume
plain_status_callback deferred status dest =
    let dest' = set_value status dest in
    (
      dest',
      reads_task
          ∷ frees_task
          ∷ (if deferred then posts (resume dest') else resumes (resume dest'))
          ∷ [],
    )

-- A status receptable and the buffer for the additional data, if there is one.
pub record WithData (D : Type 0) : Type 0 where
  pub dest : Receptable DocaError
  pub additional_data : Option D

-- `rdma_context::receive_completion_callback`; `betoh32` is `DOCA_BETOH32`.
unfoldable pub receive_completion_callback :
    (ℕ → ℕ) → DocaError → ℕ → WithData ℕ → WithData ℕ × List Effect
unfolding set_value overwrite resume
receive_completion_callback betoh32 status imm_be32 r = (
  record {
    dest = set_value status r.dest;
    additional_data = overwrite (betoh32 imm_be32) r.additional_data;
  },
  reads_task ∷ reads_task ∷ frees_task ∷ resumes (resume (set_value status r.dest)) ∷ [],
)

pub record CompressChecksums : Type 0 where
  pub crc : ℕ  -- uint32
  pub adler : ℕ  -- uint32
  pub xxh : ℕ  -- uint32

pub data CompressTask : Type 0 where
  compress_deflate decompress_deflate decompress_lz4_stream decompress_lz4_block : CompressTask

-- What DOCA computed for a task; a deflate task has no xxHash, an lz4 task no Adler checksum.
unfoldable pub compress_checksums : CompressTask → CompressChecksums → CompressChecksums
compress_checksums compress_deflate t = record t { xxh = 0 }
compress_checksums decompress_deflate t = record t { xxh = 0 }
compress_checksums decompress_lz4_stream t = record t { adler = 0 }
compress_checksums decompress_lz4_block t = record t { adler = 0 }

abbrev reads_if : Bool → List Effect
reads_if b = if b then reads_task ∷ [] else []

abbrev has_data : Option CompressChecksums → Bool
has_data none = false
has_data (some c) = true

-- `compress_context::task_completion_callback`
unfoldable pub task_completion_callback :
    CompressTask
    → DocaError
    → CompressChecksums
    → WithData CompressChecksums
    → WithData CompressChecksums × List Effect
unfolding emplace_value overwrite resume compress_checksums
task_completion_callback type status computed r = (
  record {
    dest = emplace_value status r.dest;
    additional_data = overwrite (compress_checksums type computed) r.additional_data;
  },
  reads_task
      ∷ (reads_if (has_data r.additional_data)
          ++ (frees_task ∷ resumes (resume (emplace_value status r.dest)) ∷ [])),
)

pub record ConsumerRecvResult : Type 0 where
  pub immediate : List ℕ  -- uint8
  pub producer_id : ℕ  -- uint32
  pub status : DocaError

-- `MAX_IMMEDIATE_DATA_SIZE`
abbrev pub max_immediate_data_size : ℕ
max_immediate_data_size = 32

-- A `static_vector` holds as much as its capacity; `too_long` is what its constructor does with more.
module _ (too_long : Outcome (Receptable ConsumerRecvResult × List Effect)) where
  unfoldable pub post_recv_task_completion_callback :
      List ℕ
      → ℕ
      → DocaError
      → Receptable ConsumerRecvResult
      → Outcome (Receptable ConsumerRecvResult × List Effect)
  unfolding set_value resume
  post_recv_task_completion_callback imm producer status dest =
      let result : ConsumerRecvResult = record {
        immediate = imm;
        producer_id = producer;
        status = status;
      } in
      if leb (length imm) max_immediate_data_size
      then ok (
        set_value result dest,
        reads_task
            ∷ reads_task
            ∷ reads_task
            ∷ reads_task
            ∷ frees_task
            ∷ resumes (resume (set_value result dest))
            ∷ [],
      )
      else too_long
