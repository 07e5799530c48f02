-- ===== src/Servers/Generic/Replacing.antt =====
-- internal/servers/generic_server.go: an update without a mask puts the object of the request in place.
use osac_fulfillment_service.Prelude.{◌≡◌, ◌∙◌, inl, inr, ap, none, some, arith}
use osac_fulfillment_service.Prelude.Compare.{Comparable}
use osac_fulfillment_service.Errors.{ok}
use osac_fulfillment_service.Dao.{Object, Store, object_of}
use osac_fulfillment_service.Dao.Lifecycle.{update-Ends}
use osac_fulfillment_service.Servers.Generic.{Server, UpdateRequest, set_tenant, update}
use osac_fulfillment_service.Servers.Generic.Locking.{update_steps, saved}

module _ {D : Type 0} (server : Server D) ⦃c : Comparable D⦄ where
  pub replaced :
      (request : UpdateRequest D) (new made : Object D) (s t : Store D)
      → request.object ≡ some new
      → request.mask ≡ none
      → update server request s ≡ ok (made, t)
      → made.payload ≡ new.payload
  unfolding object_of
  replaced request new made s t o m h =
      let (object, visible, current, merged, tenant, o', v, g, k, mg, a, w) =
        update_steps server request s t made h in
      let same : object ≡ new = ground arith in
      let all : merged ≡ object = ground arith in
      let whole : merged.payload ≡ new.payload = ap (λ x. x.payload) (all ∙ same) in
      elim (saved server (set_tenant tenant merged) current made s t w) [
        | inl e ↦ ap (λ x. x.payload) e.1 ∙ whole
        | inr (seer, d) ↦
            let (clause, old, row, cl, f, r, md, e) =
              update-Ends server.database seer (set_tenant tenant merged) made s t d in
            ap (λ x. x.payload) md ∙ ap (λ x. x.document) r ∙ whole
      ]
