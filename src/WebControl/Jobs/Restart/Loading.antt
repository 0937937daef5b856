-- ===== src/WebControl/Jobs/Restart/Loading.antt =====
-- What one file adds to the jobs when the server starts (webcontrol/jobs.go).
use chat_wire.Common.{
  ℕ, ◌≡◌, refl, sym, ap, ◌∙◌, arith, String, Bool, true, false, not, if◌then◌else◌, string_eq,
  if-All, if-cases,
}
use chat_wire.Common.Assoc.{insert}
use chat_wire.Common.Result.{ok, ok-inj, bind-ok, refuse_if-ok}
use chat_wire.WebControl.Jobs.{Job, Jobs, save}
use chat_wire.WebControl.Jobs.Restart.{
  Found, is_at_work, close_job, is_restarted, reconnect_job, settle, put_loaded, load_job, valid_id,
  invalid_job_id,
}

-- A step between saving and the next: only the disk and the job change.
record Settled (need : Bool) (new v : Job) (j : Jobs) (r : Job × Jobs) : Type 0 where
  chosen : r.0 ≡ (if need then new else v)
  items : r.1.items ≡ j.items
  keys : r.1.keys ≡ j.keys
  busy : r.1.busy ≡ j.busy
  pending : r.1.pending ≡ j.pending

settle-Settled :
    (need saved : Bool) (new v : Job) (j : Jobs) (r : Job × Jobs)
    → settle need saved new (v, j) ≡ ok r
    → Settled need new v j r
settle-Settled false saved new v j r h =
    let e = sym (ok-inj (v, j) r h) in
    record {
      chosen = ap (λ (x : Job × Jobs). x.0) e;
      items = ap (λ (x : Job × Jobs). x.1.items) e;
      keys = ap (λ (x : Job × Jobs). x.1.keys) e;
      busy = ap (λ (x : Job × Jobs). x.1.busy) e;
      pending = ap (λ (x : Job × Jobs). x.1.pending) e;
    }
settle-Settled true true new v j r h =
    let e = sym (ok-inj (new, save true new j) r h) in
    record {
      chosen = ap (λ (x : Job × Jobs). x.0) e;
      items = ap (λ (x : Job × Jobs). x.1.items) e;
      keys = ap (λ (x : Job × Jobs). x.1.keys) e;
      busy = ap (λ (x : Job × Jobs). x.1.busy) e;
      pending = ap (λ (x : Job × Jobs). x.1.pending) e;
    }
settle-Settled true false new v j r h = absurd (ground arith)

-- The job of a file, as it is loaded: closed or finished where it has to be.
abbrev pub after_close : Found → Job → Job
after_close f v = if is_at_work v then close_job f.closed_at v else v

abbrev pub as_loaded : Found → Job → Job
as_loaded f v =
    let w = after_close f v in if is_restarted w then reconnect_job f.reconnected_at w else w

-- The jobs `u` are `j` with the job of a file.
pub record Loaded (f : Found) (v : Job) (j u : Jobs) : Type 0 where
  pub items : u.items ≡ insert v.id (as_loaded f v) j.items
  pub keys : u.keys ≡ insert v.key v.id j.keys
  pub busy : u.busy ≡ j.busy
  pub pending : u.pending ≡ j.pending

as_loaded_if :
    (P : Job → Type 0) (f : Found) (v : Job)
    → P v
    → ((now : ℕ) (w : Job) → P w → P (close_job now w))
    → ((now : ℕ) (w : Job) → P w → P (reconnect_job now w))
    → P (as_loaded f v)
as_loaded_if P f v h close reconnect =
    let w = if-All P (is_at_work v) (close f.closed_at v h) h in
    if-All P (is_restarted (after_close f v)) (reconnect f.reconnected_at (after_close f v) w) w

pub as_loaded-id : (f : Found) (v : Job) → (as_loaded f v).id ≡ v.id
as_loaded-id f v = as_loaded_if (λ w. w.id ≡ v.id) f v refl (λ now w h. h) (λ now w h. h)

pub as_loaded-key : (f : Found) (v : Job) → (as_loaded f v).key ≡ v.key
as_loaded-key f v = as_loaded_if (λ w. w.key ≡ v.key) f v refl (λ now w h. h) (λ now w h. h)

pub as_loaded-hash : (f : Found) (v : Job) → (as_loaded f v).hash ≡ v.hash
as_loaded-hash f v = as_loaded_if (λ w. w.hash ≡ v.hash) f v refl (λ now w h. h) (λ now w h. h)

-- A loaded job is not at work.
pub is_at_work-as_loaded : (f : Found) (v : Job) → is_at_work (as_loaded f v) ≡ false
is_at_work-as_loaded f v =
    let P = λ (w : Job). is_at_work w ≡ false in
    let w = if-cases P (is_at_work v) (λ e. refl) (λ e. e) in
    if-All P (is_restarted (after_close f v)) refl w

pub load_job-Loaded : (f : Found) (v : Job) (j u : Jobs) → load_job f v j ≡ ok u → Loaded f v j u
unfolding load_job
load_job-Loaded f v j u h =
    let (good, h1) = refuse_if-ok (not (valid_id v.id)) invalid_job_id _ u h in
    let (a, e1, h2) =
      bind-ok (settle (is_at_work v) f.closed_saved (close_job f.closed_at v) (v, j)) _ u h1 in
    let (b, e2, h3) =
      bind-ok (settle (is_restarted a.0) f.reconnected_saved (reconnect_job f.reconnected_at a.0) a)
        _ u h2 in
    let s1 = settle-Settled (is_at_work v) f.closed_saved (close_job f.closed_at v) v j a e1 in
    let s2 =
      settle-Settled (is_restarted a.0) f.reconnected_saved (reconnect_job f.reconnected_at a.0) a.0
        a.1 b e2 in
    let last =
      s2.chosen
      ∙ ap (λ (w : Job). if is_restarted w then reconnect_job f.reconnected_at w else w)
          s1.chosen in
    let e = sym (ok-inj (put_loaded b) u h3) in
    record {
      items =
          ap (λ (x : Jobs). x.items) e
          ∙ ap (λ (w : Job). insert w.id w b.1.items) last
          ∙ ap (λ (i : String). insert i (as_loaded f v) b.1.items) (as_loaded-id f v)
          ∙ ap (insert v.id (as_loaded f v)) (s2.items ∙ s1.items);
      keys =
          ap (λ (x : Jobs). x.keys) e
          ∙ ap (λ (w : Job). insert w.key w.id b.1.keys) last
          ∙ ap (λ (k : String). insert k (as_loaded f v).id b.1.keys) (as_loaded-key f v)
          ∙ ap (λ (i : String). insert v.key i b.1.keys) (as_loaded-id f v)
          ∙ ap (insert v.key v.id) (s2.keys ∙ s1.keys);
      busy = ap (λ (x : Jobs). x.busy) e ∙ s2.busy ∙ s1.busy;
      pending = ap (λ (x : Jobs). x.pending) e ∙ s2.pending ∙ s1.pending;
    }
