-- ===== src/Transport.antt =====
-- What crosses from one process to another as JSON: contexts, errors, results and the calls that wait for
-- them (fastapi_viewsets/context, exceptions.py, decorators/celery_viewset).
pub mod Json
pub mod Values
pub mod Contexts
pub mod Errors
pub mod Reader
