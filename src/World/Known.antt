-- ===== src/World/Known.antt =====
-- Triples for a sequence whose first action has a known result.
use simple_cwl_xenon_service.Prelude.{ℕ, ◌≡◌, sym, ◌∙◌}
use simple_cwl_xenon_service.Exception.{Exn, Outcome, ok}
use simple_cwl_xenon_service.JobStore.Table.{Row}
use simple_cwl_xenon_service.World.{World, M, lift, ◌>>=◌, find_job, read}
use simple_cwl_xenon_service.World.At.{Stable, At}
use simple_cwl_xenon_service.World.Triple.{
  Triple, Triple-bind, Triple-find_job, Triple-read, Triple-forget, At-map,
}

module _ {A B : Type 0} {P : World → Type 0} {Q : B → World → Type 0}
    {E : Exn → World → Type 0} where
  pub Triple-ok :
      (f : A → M B) (r : Outcome A) (a : A)
      → r ≡ ok a
      → Triple P (f a) Q E
      → Triple P (lift r >>= f) Q E
  Triple-ok f r a e t = record { run = λ w p. rw e (t.run w p) }

  pub Triple-result :
      (m : M A) (f : A → M B) (a : A)
      → Triple P m (λ b w. (b ≡ a) × P w) E
      → Triple P (f a) Q E
      → Triple P (m >>= f) Q E
  Triple-result m f a tm t = Triple-bind tm λ b. record { run = λ w p. rw p.0 (t.run w p.1) }

module _ {B : Type 0} (id : ℕ) {P : Row → Type 0} (stable : Stable P) {Q : B → World → Type 0}
    {E : Exn → World → Type 0} where
  pub Triple-find_known :
      (f : ℕ → M B) → Triple (At id P) (f id) Q E → Triple (At id P) (find_job id >>= f) Q E
  Triple-find_known f t = Triple-result (find_job id) f id (Triple-find_job id stable) t

  -- A column that the predicate on the row tells.
  pub Triple-read_known :
      {A : Type 0} (f : A → M B) (column : Row → A) (a : A)
      → ((r : Row) → P r → column r ≡ a)
      → Triple (At id P) (f a) Q E
      → Triple (At id P) (read column id >>= f) Q E
  Triple-read_known f column a h t =
      Triple-result (read column id) f a
        (Triple-forget (λ v w x. (sym (x.row.2.1) ∙ h x.row.0 x.row.2.0, At-map (λ r k. k.0) x))
          (Triple-read id stable column))
        t
