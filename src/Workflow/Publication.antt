-- ===== src/Workflow/Publication.antt =====
-- packages/workflow/src/publication.ts: the snapshot of a publication and the binding of a session.
-- What the zod parsers of texts and the bound on the size of a raw configuration accept is a parameter
-- (`Schemas`).
use booking_lumin_checkout.Base.{
  ℕ, String, Bool, true, false, not, ◌&&◌, ◌||◌, ◌==◌, nat_eq, leb, Option, none, some, List, [],
  ◌∷◌, length, is_some, all, find,
}
use booking_lumin_checkout.Base.Int.{max_safe}
use booking_lumin_checkout.Base.Result.{Result, ok, ◌>>◌, throw_if}
use booking_lumin_checkout.Workflow.Steps.{WorkflowStep, WorkflowConfig}
use booking_lumin_checkout.Workflow.Strict.{config_fits}

pub data FlowStatus : Type 0 where
  draft active archived : FlowStatus

pub record Flow : Type 0 where
  pub tenant_id : String
  pub flow_id : String
  pub name : String
  pub status : FlowStatus
  pub published_version_id : Option String

pub record FlowDraft : Type 0 where
  pub tenant_id : String
  pub flow_id : String
  pub revision : ℕ
  pub config : WorkflowConfig

-- The schema version is 1, and submissions are unconfirmed requests.
pub record PublishedFlowVersion : Type 0 where
  pub tenant_id : String
  pub flow_id : String
  pub version_id : String
  pub source_revision : ℕ
  pub config : WorkflowConfig

pub record FlowInstallation : Type 0 where
  pub tenant_id : String
  pub flow_id : String
  pub installation_id : String
  pub version_id : String
  pub allowed_origins : List String

pub record FlowSessionBinding : Type 0 where
  pub tenant_id : String
  pub flow_id : String
  pub installation_id : String
  pub version_id : String
  pub session_id : String

pub record Schemas : Type 0 where
  pub is_uuid : String → Bool
  pub is_origin : String → Bool
  pub text_length : String → ℕ
  pub is_bounded : WorkflowConfig → Bool

pub data PublicationFault : Type 0 where
  invalid_record invalid_draft_binding revision_conflict required_question_skipped
        invalid_session_binding invalid_installation_binding :
      PublicationFault

abbrev pub is_archived : FlowStatus → Bool
is_archived FlowStatus.archived = true
is_archived _ = false

abbrev pub asks : String → WorkflowStep → Bool
asks key s = elim (s.question_key) [ none ↦ false | some q ↦ q == key ]

-- Whether the first step that asks the question is required and always visible.
abbrev pub cannot_skip : Option WorkflowStep → Bool
cannot_skip none = false
cannot_skip (some s) = s.required && not (is_some s.visible_when)

unfoldable pub check_required : List WorkflowStep → List String → Result PublicationFault (Unit {0})
check_required steps [] = ok tt
check_required steps (key ∷ keys) = do
  throw_if (not (cannot_skip (find (asks key) steps))) PublicationFault.required_question_skipped
  check_required steps keys

module _ (z : Schemas) where
  abbrev is_revision : ℕ → Bool
  is_revision n = leb 1 n && leb n max_safe

  abbrev parses_config : WorkflowConfig → Bool
  parses_config config = z.is_bounded config && config_fits config

  abbrev parses_id : Option String → Bool
  parses_id none = true
  parses_id (some id) = z.is_uuid id

  unfoldable pub parses_flow : Flow → Bool
  parses_flow f =
      z.is_uuid f.tenant_id
      && (z.is_uuid f.flow_id
          && (leb 1 (z.text_length f.name)
              && (leb (z.text_length f.name) 200 && parses_id f.published_version_id)))

  unfoldable pub parses_draft : FlowDraft → Bool
  unfolding config_fits
  parses_draft d =
      z.is_uuid d.tenant_id
      && (z.is_uuid d.flow_id && (is_revision d.revision && parses_config d.config))

  unfoldable pub parses_version : PublishedFlowVersion → Bool
  unfolding config_fits
  parses_version v =
      parses_config v.config
      && (z.is_uuid v.tenant_id
          && (z.is_uuid v.flow_id && (z.is_uuid v.version_id && is_revision v.source_revision)))

  unfoldable pub parses_installation : FlowInstallation → Bool
  parses_installation i =
      z.is_uuid i.tenant_id
      && (z.is_uuid i.flow_id
          && (z.is_uuid i.installation_id
              && (z.is_uuid i.version_id
                  && (leb 1 (length i.allowed_origins)
                      && (leb (length i.allowed_origins) 20
                          && all z.is_origin i.allowed_origins)))))

  unfoldable pub parses_session : FlowSessionBinding → Bool
  parses_session s =
      z.is_uuid s.tenant_id
      && (z.is_uuid s.flow_id
          && (z.is_uuid s.installation_id && (z.is_uuid s.version_id && z.is_uuid s.session_id)))

  unfoldable pub snapshot_flow_publication :
      Flow
      → FlowDraft
      → (expected_revision : ℕ) → (version_id : String) → (required_question_keys : List String)
      → Result PublicationFault PublishedFlowVersion
  unfolding parses_flow parses_draft parses_version check_required
  snapshot_flow_publication flow d expected version_id required = do
    throw_if (not (parses_flow flow)) PublicationFault.invalid_record
    throw_if (not (parses_draft d)) PublicationFault.invalid_record
    throw_if
        (is_archived flow.status
          || (not (flow.tenant_id == d.tenant_id) || not (flow.flow_id == d.flow_id)))
        PublicationFault.invalid_draft_binding
    throw_if (not (nat_eq expected d.revision)) PublicationFault.revision_conflict
    check_required d.config.steps required
    let version : PublishedFlowVersion = record {
      tenant_id = flow.tenant_id;
      flow_id = flow.flow_id;
      version_id = version_id;
      source_revision = d.revision;
      config = d.config;
    }
    throw_if (not (parses_version version)) PublicationFault.invalid_record
    ok version

  unfoldable pub validate_flow_session_binding :
      PublishedFlowVersion
      → FlowInstallation
      → FlowSessionBinding
      → Result PublicationFault FlowSessionBinding
  unfolding parses_version parses_installation parses_session
  validate_flow_session_binding version i s = do
    throw_if (not (parses_version version)) PublicationFault.invalid_record
    throw_if (not (parses_installation i)) PublicationFault.invalid_record
    throw_if (not (parses_session s)) PublicationFault.invalid_record
    throw_if (not (version.tenant_id == i.tenant_id) || not (version.tenant_id == s.tenant_id))
        PublicationFault.invalid_session_binding
    throw_if (not (version.flow_id == i.flow_id) || not (version.flow_id == s.flow_id))
        PublicationFault.invalid_session_binding
    throw_if (not (version.version_id == i.version_id) || not (version.version_id == s.version_id))
        PublicationFault.invalid_session_binding
    throw_if (not (i.installation_id == s.installation_id))
        PublicationFault.invalid_installation_binding
    ok s
