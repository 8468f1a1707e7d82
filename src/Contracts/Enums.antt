-- ===== src/Contracts/Enums.antt =====
-- libs/sentinel/contracts/enums.py.
use sentinal_ai_control_room.Prelude.{
  ℕ, Bool, true, false, Option, none, some, ◌≡◌, ◌↔◌, Eq, leb, if◌then◌else◌, arith,
}

pub data Axis : Type 0 where
  north_south east_west : Axis

pub data Direction : Type 0 where
  north south east west : Direction

pub data SignalPhase : Type 0 where
  ns_green ns_yellow ew_green ew_yellow all_red : SignalPhase

pub data DensityLevel : Type 0 where
  free moderate heavy jam : DensityLevel

pub data DecisionAction : Type 0 where
  keep_green extend_green reduce_green switch_phase emergency_override : DecisionAction

pub data VehicleClass : Type 0 where
  car truck bus motorcycle bicycle pedestrian ambulance fire_truck police : VehicleClass

pub data IncidentType : Type 0 where
  collision stalled_vehicle wrong_way abnormal_congestion pedestrian_on_road : IncidentType

pub data IncidentSeverity : Type 0 where
  low medium high critical : IncidentSeverity

pub data SystemMode : Type 0 where
  ai fixed_timer degraded manual : SystemMode

pub data AgentStatus : Type 0 where
  healthy degraded unhealthy stopped : AgentStatus

-- `Direction.opposite`, by the table `_OPPOSITE`.
abbrev pub opposite : Direction → Direction
opposite north = south
opposite south = north
opposite east = west
opposite west = east

-- `Direction.axis`.
abbrev pub direction_axis : Direction → Axis
direction_axis north = north_south
direction_axis south = north_south
direction_axis east = east_west
direction_axis west = east_west

-- `Axis.directions`.
abbrev pub directions : Axis → Direction × Direction
directions north_south = (north, south)
directions east_west = (east, west)

-- `SignalPhase.axis`, by the table `_PHASE_AXIS`.
abbrev pub phase_axis : SignalPhase → Option Axis
phase_axis ns_green = some north_south
phase_axis ns_yellow = some north_south
phase_axis ew_green = some east_west
phase_axis ew_yellow = some east_west
phase_axis all_red = none

-- `SignalPhase.is_green`.
abbrev pub is_green : SignalPhase → Bool
is_green ns_green = true
is_green ew_green = true
is_green _ = false

-- `DensityLevel.from_occupancy`, of a percentage in thousandths.
unfoldable pub from_occupancy : ℕ → DensityLevel
from_occupancy occupancy_pct =
    if leb 80000 occupancy_pct
    then jam
    else if leb 50000 occupancy_pct
    then heavy
    else if leb 20000 occupancy_pct
    then moderate
    else free

-- `VehicleClass.is_emergency`.
abbrev pub is_emergency : VehicleClass → Bool
is_emergency ambulance = true
is_emergency fire_truck = true
is_emergency police = true
is_emergency _ = false

-- `VehicleClass.is_vehicle`.
abbrev pub is_vehicle : VehicleClass → Bool
is_vehicle pedestrian = false
is_vehicle _ = true

-- `IncidentSeverity.rank`.
abbrev pub rank : IncidentSeverity → ℕ
rank low = 0
rank medium = 1
rank high = 2
rank critical = 3

abbrev pub axis_beq : Axis → Axis → Bool
axis_beq north_south north_south = true
axis_beq east_west east_west = true
axis_beq _ _ = false

pub axis_beq_iff : (a b : Axis) → (axis_beq a b ≡ true) ↔ (a ≡ b)
axis_beq_iff a b = ground arith

instance abbrev pub axis_eq : Eq Axis
axis_eq = record { test = axis_beq; test_iff = axis_beq_iff }

abbrev pub direction_beq : Direction → Direction → Bool
direction_beq north north = true
direction_beq south south = true
direction_beq east east = true
direction_beq west west = true
direction_beq _ _ = false

pub direction_beq_iff : (a b : Direction) → (direction_beq a b ≡ true) ↔ (a ≡ b)
direction_beq_iff a b = ground arith

instance abbrev pub direction_eq : Eq Direction
direction_eq = record { test = direction_beq; test_iff = direction_beq_iff }

abbrev pub phase_beq : SignalPhase → SignalPhase → Bool
phase_beq ns_green ns_green = true
phase_beq ns_yellow ns_yellow = true
phase_beq ew_green ew_green = true
phase_beq ew_yellow ew_yellow = true
phase_beq all_red all_red = true
phase_beq _ _ = false

pub phase_beq_iff : (a b : SignalPhase) → (phase_beq a b ≡ true) ↔ (a ≡ b)
phase_beq_iff a b = ground arith

instance abbrev pub phase_eq : Eq SignalPhase
phase_eq = record { test = phase_beq; test_iff = phase_beq_iff }

abbrev pub incident_type_beq : IncidentType → IncidentType → Bool
incident_type_beq collision collision = true
incident_type_beq stalled_vehicle stalled_vehicle = true
incident_type_beq wrong_way wrong_way = true
incident_type_beq abnormal_congestion abnormal_congestion = true
incident_type_beq pedestrian_on_road pedestrian_on_road = true
incident_type_beq _ _ = false

pub incident_type_beq_iff : (a b : IncidentType) → (incident_type_beq a b ≡ true) ↔ (a ≡ b)
incident_type_beq_iff a b = ground arith

instance abbrev pub incident_type_eq : Eq IncidentType
incident_type_eq = record { test = incident_type_beq; test_iff = incident_type_beq_iff }

abbrev pub mode_beq : SystemMode → SystemMode → Bool
mode_beq ai ai = true
mode_beq fixed_timer fixed_timer = true
mode_beq SystemMode.degraded SystemMode.degraded = true
mode_beq manual manual = true
mode_beq _ _ = false

pub mode_beq_iff : (a b : SystemMode) → (mode_beq a b ≡ true) ↔ (a ≡ b)
mode_beq_iff a b = ground arith

instance abbrev pub mode_eq : Eq SystemMode
mode_eq = record { test = mode_beq; test_iff = mode_beq_iff }

abbrev pub status_beq : AgentStatus → AgentStatus → Bool
status_beq healthy healthy = true
status_beq AgentStatus.degraded AgentStatus.degraded = true
status_beq unhealthy unhealthy = true
status_beq stopped stopped = true
status_beq _ _ = false

pub status_beq_iff : (a b : AgentStatus) → (status_beq a b ≡ true) ↔ (a ≡ b)
status_beq_iff a b = ground arith

instance abbrev pub status_eq : Eq AgentStatus
status_eq = record { test = status_beq; test_iff = status_beq_iff }

abbrev pub type_beq : IncidentType → IncidentType → Bool
type_beq collision collision = true
type_beq stalled_vehicle stalled_vehicle = true
type_beq wrong_way wrong_way = true
type_beq abnormal_congestion abnormal_congestion = true
type_beq pedestrian_on_road pedestrian_on_road = true
type_beq _ _ = false

pub type_beq_iff : (a b : IncidentType) → (type_beq a b ≡ true) ↔ (a ≡ b)
type_beq_iff a b = ground arith
