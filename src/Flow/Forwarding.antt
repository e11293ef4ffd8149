-- ===== src/Flow/Forwarding.antt =====
-- What a flow pipe forwards to (`flow_fwd` in shoc/flow.hpp, `docaify_fwd` in shoc/flow.cpp).
use shoc.Base.{ℕ, Option, none, some}
use shoc.Doca.{DocaError}
use shoc.Error.{Outcome, ok, ◌>>◌, enforce_success}

-- `doca_flow_fwd_type`
pub data FwdType : Type 0 where
  fwd_none_type fwd_drop_type fwd_target_type fwd_rss_type fwd_pipe_type fwd_port_type : FwdType
  other_type : ℕ → FwdType

-- The member of `doca_flow_fwd`'s union that was written last, with its value.
pub data FwdMember : Type 0 where
  target : Option ℕ → FwdMember
  port_id next_pipe : ℕ → FwdMember
  rss : ℕ → FwdMember
  uninitialised : FwdMember

-- `doca_flow_fwd`
pub record DocaFwd : Type 0 where
  pub type : FwdType
  pub rss_type : ℕ
  pub member : FwdMember

-- `resource_rss_cfg`: the configuration for DOCA, and its resource type.
pub record RssCfg : Type 0 where
  pub doca_cfg : ℕ
  pub resource_type : ℕ

-- `flow_fwd`; pipes are their handles, and ports their ids.
pub data FlowFwd : Type 0 where
  monostate fwd_none fwd_drop fwd_kernel : FlowFwd
  doca_fwd : DocaFwd → FlowFwd
  rss_cfg : RssCfg → FlowFwd
  pipe port : ℕ → FlowFwd

-- `docaify_fwd`: the target for DOCA, `none` for null. `get_target` is what DOCA answers to the
-- question for the kernel, and `kernel_target` what it writes; `doca_buffer` is not initialised.
unfoldable pub docaify_fwd : DocaError → ℕ → FlowFwd → DocaFwd → Outcome (Option DocaFwd)
unfolding enforce_success
docaify_fwd get_target kernel_target monostate doca_buffer = ok none
docaify_fwd get_target kernel_target fwd_none doca_buffer =
    ok (some (record doca_buffer { type = fwd_none_type; member = target none }))
docaify_fwd get_target kernel_target (doca_fwd dff) doca_buffer = ok (some dff)
docaify_fwd get_target kernel_target fwd_drop doca_buffer =
    ok (some (record doca_buffer { type = fwd_drop_type; member = port_id 0 }))
docaify_fwd get_target kernel_target fwd_kernel doca_buffer = do
  enforce_success get_target
  ok (some (record doca_buffer { type = fwd_target_type; member = target (some kernel_target) }))
docaify_fwd get_target kernel_target (rss_cfg r) doca_buffer =
    ok (some (record { type = fwd_rss_type; rss_type = r.resource_type; member = rss r.doca_cfg }))
docaify_fwd get_target kernel_target (pipe handle) doca_buffer =
    ok (some (record doca_buffer { type = fwd_pipe_type; member = next_pipe handle }))
docaify_fwd get_target kernel_target (port id) doca_buffer =
    ok (some (record doca_buffer { type = fwd_port_type; member = port_id id }))
