-- ===== src/PhysicalPorts.antt =====
-- The list of ports of the device at the other end of a physical port: `showPhysical_ports` and
-- `cleanup_patchpanel_links` of management/stab/web/src/web/javascript/device-utils.js, with the
-- global variable `request` that its handlers read.
pub mod Requests
pub mod Answers
