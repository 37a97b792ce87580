-- ===== src/Compute/Machines/State.antt =====
-- When `getRunningState` of internal/kubevim/compute/kubevirt/utils.go calls a machine running.
use kube_vim.Common.{true, false, ◌==◌, ◌≡◌, ◌↔◌, arith, eq_iff}
use kube_vim.K8s.Kubevirt.{VmStatus, VmiStatus}
use kube_vim.Compute.Types.{RunningState, KubevirtApi}
use kube_vim.Compute.Machines.{get_running_state, has_condition}

-- A machine that is neither halted, paused nor terminating, with a VMI that runs, and that KubeVirt
-- reports as created and ready.
pub record IsUp (api : KubevirtApi) (vm : VmStatus) (vmi : VmiStatus) : Type 0 where
  pub not_halted : (vm.run_strategy == api.run_strategy_halted) ≡ false
  pub not_paused : has_condition api.vmi_paused vmi.condition_types ≡ false
  pub not_terminating : (vm.printable_status == api.status_terminating) ≡ false
  pub created : vm.created ≡ true
  pub ready : vm.ready ≡ true
  pub phase : vmi.phase ≡ api.phase_running

running-IsUp :
    (api : KubevirtApi) (vm : VmStatus) (vmi : VmiStatus)
    → get_running_state api vm vmi ≡ RunningState.running
    → IsUp api vm vmi
unfolding get_running_state
running-IsUp api vm vmi h = record {
  not_halted = ground arith;
  not_paused = ground arith;
  not_terminating = ground arith;
  created = ground arith;
  ready = ground arith;
  phase = ground (arith, eq_iff vmi.phase api.phase_running);
}

up-running :
    (api : KubevirtApi) (vm : VmStatus) (vmi : VmiStatus)
    → IsUp api vm vmi
    → get_running_state api vm vmi ≡ RunningState.running
unfolding get_running_state
up-running api vm vmi up = rw (
  up.not_halted,
  up.not_paused,
  up.not_terminating,
  up.created,
  up.ready,
  (eq_iff vmi.phase api.phase_running).1 up.phase,
)

-- A machine is shown as running exactly when it is neither halted, paused nor terminating, it is
-- created and ready, and its VMI is in the phase Running.
pub get_running_state-running_iff :
    (api : KubevirtApi) (vm : VmStatus) (vmi : VmiStatus)
    → (get_running_state api vm vmi ≡ RunningState.running) ↔ IsUp api vm vmi
get_running_state-running_iff api vm vmi = (running-IsUp api vm vmi, up-running api vm vmi)
