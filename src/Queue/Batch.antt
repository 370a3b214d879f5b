-- ===== src/Queue/Batch.antt =====
-- The class BatchQueue of src/spsc_queue.hpp. The address of a chunk is a number, and nullptr is 0. The
-- members of the chunks stand in the record as maps from addresses; `live` says what malloc has given
-- and free has not taken back. What malloc returns is an argument.
use flash_forwarder.Prelude.{ℕ, suc, ◌-◌, Bool, true, false, ◌==◌, if◌then◌else◌}

abbrev pub update {ℓ} : {A : Type ℓ} → ℕ → A → (ℕ → A) → ℕ → A
update k v f i = if i == k then v else f i

pub record BatchQueue {ℓ} (A : Type ℓ) : Type ℓ where
  pub begin_chunk : ℕ
  pub begin_pos : ℕ
  pub back_chunk : ℕ
  pub back_pos : ℕ
  pub end_chunk : ℕ
  pub end_pos : ℕ
  pub spare : ℕ
  pub values : ℕ → ℕ → A
  pub prev : ℕ → ℕ
  pub next : ℕ → ℕ
  pub live : ℕ → Bool

-- A reference to a slot is the chunk and the position.
abbrev pub front_item {ℓ} : {A : Type ℓ} → BatchQueue A → ℕ × ℕ
front_item q = (q.begin_chunk, q.begin_pos)

abbrev pub back_item {ℓ} : {A : Type ℓ} → BatchQueue A → ℕ × ℕ
back_item q = (q.back_chunk, q.back_pos)

abbrev pub front {ℓ} : {A : Type ℓ} → BatchQueue A → A
front q = q.values q.begin_chunk q.begin_pos

abbrev pub back {ℓ} : {A : Type ℓ} → BatchQueue A → A
back q = q.values q.back_chunk q.back_pos

-- `Back() = value`
abbrev pub set_back {ℓ} : {A : Type ℓ} → A → BatchQueue A → BatchQueue A
set_back v q = record q {
  values = update q.back_chunk (update q.back_pos v (q.values q.back_chunk)) q.values;
}

-- The results: the queue, and `false` for the -1 of a failed malloc.
unfoldable pub init_batch {ℓ} : {A : Type ℓ} → ℕ → BatchQueue A → BatchQueue A × Bool
init_batch address q = if address == 0 then (record q { begin_chunk = 0 }, false) else (
  record q {
    begin_chunk = address;
    begin_pos = 0;
    back_chunk = 0;
    back_pos = 0;
    end_chunk = address;
    end_pos = 0;
    live = update address true q.live;
  },
  true,
)

-- The chunk joins the chain behind the end chunk and is the end chunk from now on.
unfoldable pub link_chunk {ℓ} : {A : Type ℓ} → ℕ → BatchQueue A → BatchQueue A
link_chunk chunk q = record q {
  next = update q.end_chunk chunk q.next;
  prev = update chunk q.end_chunk q.prev;
  end_chunk = chunk;
  end_pos = 0;
}

unfoldable pub next_chunk {ℓ} : {A : Type ℓ} → ℕ → BatchQueue A → BatchQueue A × Bool
next_chunk address q =
    if q.spare == 0
    then (if address == 0
        then (q, false)
        else (link_chunk address (record q { live = update address true q.live }), true))
    else (link_chunk q.spare (record q { spare = 0 }), true)

-- `size` is the N of the template. A failed malloc sets `end_pos_` back to what it was.
unfoldable pub push {ℓ} : {A : Type ℓ} → ℕ → ℕ → BatchQueue A → BatchQueue A × Bool
push size address q =
    let q' = record q { back_chunk = q.end_chunk; back_pos = q.end_pos } in
    if suc q.end_pos == size
    then next_chunk address q'
    else (record q' { end_pos = suc q.end_pos }, true)

unfoldable pub unpush_back {ℓ} : {A : Type ℓ} → ℕ → BatchQueue A → BatchQueue A
unpush_back size q =
    if q.back_pos == 0
    then record q { back_pos = size - 1; back_chunk = q.prev q.back_chunk }
    else record q { back_pos = q.back_pos - 1 }

unfoldable pub unpush_end {ℓ} : {A : Type ℓ} → ℕ → BatchQueue A → BatchQueue A
unpush_end size q =
    if q.end_pos == 0
    then (let chunk = q.prev q.end_chunk in
        record q {
          end_pos = size - 1;
          end_chunk = chunk;
          live = update (q.next chunk) false q.live;
          next = update chunk 0 q.next;
        })
    else record q { end_pos = q.end_pos - 1 }

unfoldable pub unpush {ℓ} : {A : Type ℓ} → ℕ → BatchQueue A → BatchQueue A
unpush size q = unpush_end size (unpush_back size q)

-- free(nullptr) does nothing.
abbrev pub freed : ℕ → (ℕ → Bool) → ℕ → Bool
freed chunk live = if chunk == 0 then live else update chunk false live

unfoldable pub pop {ℓ} : {A : Type ℓ} → ℕ → BatchQueue A → BatchQueue A
pop size q =
    if suc q.begin_pos == size
    then (let chunk = q.next q.begin_chunk in
        record q {
          begin_chunk = chunk;
          begin_pos = 0;
          prev = update chunk 0 q.prev;
          spare = q.begin_chunk;
          live = freed q.spare q.live;
        })
    else record q { begin_pos = suc q.begin_pos }
