-- ===== src/Tests/Compression.antt =====
-- The theorems of the compression of memories at two tenants.
use sutram.Prelude.{
  List, min, filter, ℕ, [], ◌∷◌, map, length, All, true, false, ◌≡◌, refl, Text, codes, ltb, ok,
  err, Option-cases, inl, inr, ◌+◌, arith,
}
use sutram.Prelude.Strings.{IsDistinct}
use sutram.Embedding.{EmbedError, embed_texts, get}
use sutram.Memory.Embedder.{embed, first, cache_key}
use sutram.Memory.Compressor.{
  chat_answer, chat_request, Compressor, Job, compress_tenant, is_due, is_due_of,
}
use sutram.Memory.Compressor.Marks.{Zip}
use sutram.Memory.Tables.{MemoryItem}
use mathlib.Core.List.{Memᴰ}
use sutram.Memory.Compressor.Progress.{IsProgress}
use sutram.Memory.Compressor.Success.{IsMarked, IsSummarised, compress_tenant-marks}
use sutram.Memory.CompressTask.{compress_all}
use sutram.Memory.CompressTask.Coverage.{compress_all-IsProgress}
use sutram.Tests.Entries.{Entries, no_entries, lookup}
use sutram.Tests.Memory.{embedder, small, red, loads}
use sutram.Tests.Searches.{sql, row}

abbrev compressor : Compressor Entries ℕ ℕ ℕ ℕ ℕ Text
compressor = record {
  embedder = embedder;
  sql = sql;
  before = ltb;
  now = 9;
  threshold = 5;
  batch_size = 2;
  default_embedding_model = small;
  chat = λ prompt w. (ok (record { status = 200; contents = codes "summary" ∷ [] }), w + 1);
  http_status_error = λ status. codes "status";
  compression_llm_model = codes "mini";
  uuid4 = λ w. codes "new";
  s3_prefix = codes "memories";
  year_and_month = λ t. codes "2026/01";
  archive_body = λ tenant_id summary_id now items. codes "json";
  put_object = λ key body store. (err (EmbedError.failure (codes "no bucket")), store);
  statement = λ w. (ok tt, w);
  commit = λ w. (ok tt, w);
}

abbrev job : Job Entries ℕ ℕ ℕ ℕ ℕ
job = record {
  tables = record {
    items =
        row (codes "1") (codes "t") red false
        ∷ row (codes "2") (codes "t") (codes "old") true
        ∷ row (codes "3") (codes "u") (codes "other") false
        ∷ [];
    summaries = [];
  };
  cache = no_entries;
  world = 0;
  store = 0;
}

job-IsDistinct : IsDistinct (map (λ i. i.id) job.tables.items)
unfolding IsDistinct
job-IsDistinct = ((refl, (refl, tt)), ((refl, tt), (tt, tt)))

compress_all-IsProgress_example :
    IsProgress compressor job.tables (compress_all compressor job).tables
compress_all-IsProgress_example = compress_all-IsProgress compressor job job-IsDistinct

loads_answers : (t : Text) → (v : ℕ) × (loads t ≡ ok v)
loads_answers [] = (0, refl)
loads_answers (n ∷ t) = (n, refl)

embeds : (text : Text) (c : Entries × ℕ) → (v : ℕ) × ((embed embedder text small c).0 ≡ ok v)
unfolding embed first embed_texts get
embeds text (d, w) = elim (Option-cases (lookup (cache_key embedder.digest small text) d.values)) [
  | inl e ↦ rw e (length text, refl)
  | inr (cached, e) ↦ rw e (loads_answers cached)
]

talks :
    (text : Text) (w : ℕ)
    → (content : Text) × (chat_answer compressor
          (compressor.chat (chat_request compressor text) w).0
        ≡ ok content)
unfolding chat_answer
talks text w = (codes "summary", refl)

exact :
    (rows : List (MemoryItem ℕ ℕ ℕ))
    → length (sql.nearest (λ item. item.created_at) 2 rows) ≡ min 2 (length rows)
exact [] = refl
exact (a ∷ []) = refl
exact (a ∷ b ∷ rows) = omega arith

compress_tenant-marks_example :
    (chosen : List (MemoryItem ℕ ℕ ℕ)) × All
      (λ i. Memᴰ i job.tables.items × (i.tenant_id ≡ codes "t") × (is_due compressor i ≡ true))
      chosen
    × (length chosen ≡ min 2 (length (filter (is_due_of compressor (codes "t")) job.tables.items)))
    × ((compress_tenant compressor (codes "t") job).0 ≡ ok (length chosen))
    × Zip
        (IsMarked compressor chosen)
        job.tables.items
        (compress_tenant compressor (codes "t") job).1.tables.items
    × IsSummarised compressor
        (codes "t")
        chosen
        job.tables.summaries
        (compress_tenant compressor (codes "t") job).1.tables.summaries
compress_tenant-marks_example =
    compress_tenant-marks compressor (codes "t") job talks embeds (λ w. refl) exact
