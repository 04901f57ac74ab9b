-- ===== src/Webhook/Prune/Deletes.antt =====
-- The loop of the deletes of cmd/webhook/prune.go goes on after a delete that fails.
use external_dns_cloudflare.Prelude.{
  append_assoc, refl, ◌∙◌, length, append-nil, arith, ok, sym, ◌+◌, ap, [], suc, ◌++◌, ◌∷◌, ◌≤◌,
  err, ℕ, Result, List, ◌≡◌,
}
use external_dns_cloudflare.Errors.{Error}
use external_dns_cloudflare.Cloudflare.{HostnameRoute}
use external_dns_cloudflare.Webhook.Prune.{
  PruneClient, PruneState, Line, delete_failed, ids, delete_all, delete_answer,
}
use external_dns_cloudflare.Webhook.Prune.Collected.{deleted_ids}

-- The lines that report a delete that failed
abbrev pub failed_lines : List Line → ℕ
failed_lines [] = 0
failed_lines (delete_failed r e ∷ lines) = suc (failed_lines lines)
failed_lines (_ ∷ lines) = failed_lines lines

deleted_ids-delete_answer :
    (r : HostnameRoute) (answer : Result Error (Unit {0})) (s : PruneState)
    → deleted_ids (delete_answer r answer s).calls ≡ deleted_ids s.calls ++ r.id ∷ []
unfolding delete_answer
deleted_ids-delete_answer r (err e) s = refl
deleted_ids-delete_answer r (ok u) s = refl

failed_lines-delete_answer :
    (r : HostnameRoute) (answer : Result Error (Unit {0})) (s : PruneState)
    → s.failures ≡ failed_lines s.lines
    → (delete_answer r answer s).failures ≡ failed_lines (delete_answer r answer s).lines
unfolding delete_answer
failed_lines-delete_answer r (err e) s h = ap suc h
failed_lines-delete_answer r (ok u) s h = h

failures_step :
    (r : HostnameRoute) (answer : Result Error (Unit {0})) (s : PruneState)
    → (delete_answer r answer s).failures ≤ s.failures + 1
unfolding delete_answer
failures_step r (err e) s = omega arith
failures_step r (ok u) s = omega arith

module _ (client : PruneClient) where
  pub deleted_ids-delete_all :
      (rs : List HostnameRoute) (s : PruneState)
      → deleted_ids (delete_all client rs s).calls ≡ deleted_ids s.calls ++ ids rs
  unfolding delete_all ids
  deleted_ids-delete_all [] s = sym (append-nil (deleted_ids s.calls))
  deleted_ids-delete_all (r ∷ rs) s =
      let answer = client.delete_hostname_route s.calls r.id in
      deleted_ids-delete_all rs (delete_answer r answer s)
      ∙ ap (λ front. front ++ ids rs) (deleted_ids-delete_answer r answer s)
      ∙ append_assoc (deleted_ids s.calls) (r.id ∷ []) (ids rs)

  pub failed_lines-delete_all :
      (rs : List HostnameRoute) (s : PruneState)
      → s.failures ≡ failed_lines s.lines
      → (delete_all client rs s).failures ≡ failed_lines (delete_all client rs s).lines
  unfolding delete_all
  failed_lines-delete_all [] s h = h
  failed_lines-delete_all (r ∷ rs) s h =
      failed_lines-delete_all rs _
        (failed_lines-delete_answer r (client.delete_hostname_route s.calls r.id) s h)

  pub failures_bound :
      (rs : List HostnameRoute) (s : PruneState)
      → (delete_all client rs s).failures ≤ s.failures + length rs
  unfolding delete_all
  failures_bound [] s = omega arith
  failures_bound (r ∷ rs) s =
      let answer = client.delete_hostname_route s.calls r.id in
      omega (arith, failures_step r answer s, failures_bound rs (delete_answer r answer s))
